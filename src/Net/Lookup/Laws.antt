-- ===== src/Net/Lookup/Laws.antt =====
-- Addresses to text and back, and the addresses of a host that the callback is given.
use mathlib.Core.List.{append_assoc, append-nil}
use libac.Prelude.{
  ℕ, suc, none, ◌≡◌, ◌⊎◌, refl, sym, ap, ◌∙◌, Bool, true, false, Bool-cases, inl, inr, Option, some,
  List, [], ◌∷◌, ◌++◌, ◌&&◌, map, if_true, if_false,
}
use libac.Prelude.Int.{ℤ, pos, negsuc}
use libac.Str.{Str, has_byte}
use libac.Net.Lookup.{
  Family, af_inet, af_inet6, sockaddr_in, net_inet_pton, net_inet_ntop, Addrinfo, inet6_addrstrlen,
  call_each, ns_lookup_by_host, is_minus_one,
}

module _ (inet_ntop : Family → List ℕ → ℕ → Option Str)
    (inet_pton : Family → Str → Option (List ℕ)) where
  abbrev pub has_colon : Family → Bool
  has_colon af_inet = false
  has_colon af_inet6 = true

  -- The text of an IPv6 address has a colon, that of an IPv4 address has none, and `inet_pton` reads
  -- what `inet_ntop` writes.
  pub record IsText : Type 0 where
    pub colon :
        (family : Family) (addr : List ℕ) (size : ℕ) (s : Str)
        → inet_ntop family addr size ≡ some s
        → has_byte b':' s ≡ has_colon family
    pub reads :
        (family : Family) (addr : List ℕ) (size : ℕ) (s : Str)
        → inet_ntop family addr size ≡ some s
        → inet_pton family s ≡ some addr

  -- `ac_net_inet_pton` reads the address back from the text that `ac_net_inet_ntop` makes of a
  -- `struct sockaddr` with an address of either family, whatever its port.
  pub net_inet_pton-net_inet_ntop :
      (family : Family) (port : ℕ × ℕ) (addr : List ℕ) (size : ℕ) (s : Str)
      → IsText
      → net_inet_ntop inet_ntop (sockaddr_in family port addr) size ≡ some s
      → net_inet_pton inet_pton s ≡ some addr
  unfolding net_inet_pton net_inet_ntop
  net_inet_pton-net_inet_ntop af_inet port addr size s laws made =
      if_false _ _ (laws.colon af_inet addr size s made) ∙ laws.reads af_inet addr size s made
  net_inet_pton-net_inet_ntop af_inet6 port addr size s laws made =
      if_true _ _ (laws.colon af_inet6 addr size s made) ∙ laws.reads af_inet6 addr size s made

-- A call of the callback: the entry and the text that it is given
abbrev pub Call : Type 0
Call = Addrinfo × Option Str

module _ (inet_ntop : Family → List ℕ → ℕ → Option Str) (again : Addrinfo → Option Str → Bool) where
  -- A callback that notes its calls, and decides by `again`.
  abbrev pub noting : Addrinfo → Option Str → List Call → Bool × List Call
  noting ai text log = (again ai text, log ++ (ai, text) ∷ [])

  abbrev pub call_of : Addrinfo → Call
  call_of ai = (ai, net_inet_ntop inet_ntop (ai.ai_addr) inet6_addrstrlen)

  abbrev pub wanted : Addrinfo → Bool
  wanted ai = again ai (net_inet_ntop inet_ntop (ai.ai_addr) inet6_addrstrlen)

  abbrev pub all_wanted : List Addrinfo → Bool
  all_wanted [] = true
  all_wanted (ai ∷ ais) = wanted ai && all_wanted ais

  -- The calls are those for `front`; `back` is left out, since it is empty or the last call gave
  -- false.
  abbrev pub Asked : List Addrinfo → List Call → List Call → Type 0
  Asked res log log' =
      (front : List Addrinfo) × (back : List Addrinfo) × (res ≡ front ++ back)
      × (log' ≡ log ++ map call_of front)
      × (((back ≡ []) × (all_wanted front ≡ true))
          ⊎ ((before : List Addrinfo) × (last : Addrinfo) × (front ≡ before ++ last ∷ [])
              × (all_wanted before ≡ true)
              × (wanted last ≡ false)))

  call_each-Asked :
      (res : List Addrinfo) (log : List Call) → Asked res log (call_each inet_ntop noting res log)
  unfolding call_each
  call_each-Asked [] log = ([], [], refl, sym (append-nil log), inl (refl, refl))
  call_each-Asked (ai ∷ res) log = elim (Bool-cases (wanted ai)) [
    | inr stop ↦ (ai ∷ [], res, refl, rw (stop) refl, inr ([], ai, refl, refl, stop))
    | inl more ↦
        let (front, back, split, calls, ended) = call_each-Asked res (log ++ call_of ai ∷ []) in
        (
          ai ∷ front,
          back,
          ap (λ l. ai ∷ l) split,
          rw (more) (calls ∙ append_assoc log (call_of ai ∷ []) (map call_of front)),
          elim ended [
            | inl (nothing, all) ↦ inl (nothing, rw (more) all)
            | inr (before, last, is, all, stop) ↦
                inr (ai ∷ before, last, ap (λ l. ai ∷ l) is, rw (more) all, stop)
          ],
        )
  ]

  -- `ac_net_ns_lookup_by_host`, where the lookup gives 0 and a list, returns 0 and calls the callback
  -- for the entries in their order, each with the text of its address, up to the first for which it
  -- returns false or, if there is none, for all of them.
  pub ns_lookup_by_host-Asked :
      (getaddrinfo : Str → ℤ × Option (List Addrinfo)) (node : Str) (res : List Addrinfo)
      (log : List Call)
      → getaddrinfo node ≡ (pos 0, some res)
      → (log' : List Call) × (ns_lookup_by_host inet_ntop noting getaddrinfo node log
          ≡ some (pos 0, log'))
        × Asked res log log'
  unfolding ns_lookup_by_host is_minus_one
  ns_lookup_by_host-Asked getaddrinfo node res log found = (
    call_each inet_ntop noting res log,
    rw (ns_lookup_by_host, found) refl,
    call_each-Asked res log,
  )

  -- Where the lookup fails with another number than -1 and sets no list, the list is read all the same.
  pub ns_lookup_by_host_unset :
      (getaddrinfo : Str → ℤ × Option (List Addrinfo)) (node : Str) (n : ℕ) (log : List Call)
      → getaddrinfo node ≡ (negsuc (suc n), none)
      → ns_lookup_by_host inet_ntop noting getaddrinfo node log ≡ none
  unfolding ns_lookup_by_host is_minus_one
  ns_lookup_by_host_unset getaddrinfo node n log failed = rw (ns_lookup_by_host, failed) refl
