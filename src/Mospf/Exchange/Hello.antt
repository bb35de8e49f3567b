-- ===== src/Mospf/Exchange/Hello.antt =====
-- A hello of one router, as the handler of another one takes it.
use Prim.Native.Nat.{bit_and, suc}
use njucn_lab.Common.{
  Bool, Option, ◌+◌, ◌&&◌, if◌then◌else◌, length-append, subst, ℕ, ◌^◌, ◌<◌, ◌≡◌, refl, inl, inr,
  sym, ap, ◌∙◌, List, [], ◌∷◌, ◌++◌, none, some, false, length, get_or, Option-cases, Bool-cases,
  eq→==, ◌==◌, arith,
}
use njucn_lab.Net.Bytes.{get16, get32}
use njucn_lab.Router.Rtable.{Iface, RtEntry}
use njucn_lab.Router.Icmp.{ip_saddr}
use njucn_lab.Mospf.Instance.{Nbr, NbrIface, Instance}
use njucn_lab.Mospf.Routes.{find_nbr}
use njucn_lab.Mospf.Proto.{
  mospf_type_hello, mospf_all_spf_routers, mospf_init_hello, mospf_version, mospf_default_helloint,
  store_checksum, mospf_checksum, mospf_rid, mospf_of, mospf_packet, read_u16,
}
use njucn_lab.Mospf.Lsu.{hello_message}
use njucn_lab.Mospf.Neighbors.{
  refresh_nbr, same_subnet, new_nbr, update_nbr_list, update_nbr_list_via_hello, handle_mospf_hello,
}
use njucn_lab.Mospf.Flood.{handle_mospf_packet}
use njucn_lab.Mospf.Exchange.Frames.{message-checks, message_fields, packet-saddr, packet-message}

hello_fields :
    (rid aid mask : ℕ)
    → mask < 2 ^ 32
    → (get32 (hello_message rid aid mask) 16 ≡ mask) × (get16 (hello_message rid aid mask) 20 ≡ 5)
unfolding hello_message store_checksum mospf_checksum
hello_fields rid aid mask h = (omega (arith, h), refl)

-- A packet whose fields are right is handled as a hello.
hello_accepted :
    (kernel : List RtEntry) (to : Iface) (packet : List ℕ) (s : Instance)
    → get_or (mospf_of packet) 0 0 ≡ mospf_version
    → get_or (mospf_of packet) 1 0 ≡ mospf_type_hello
    → mospf_checksum (mospf_of packet) ≡ read_u16 (mospf_of packet) 12
    → get32 (mospf_of packet) 8 ≡ s.area_id
    → get32 (mospf_of packet) 16 ≡ to.mask
    → get16 (mospf_of packet) 20 ≡ mospf_default_helloint
    → handle_mospf_packet kernel to packet s
      ≡ some (
          update_nbr_list_via_hello to
            (mospf_rid (mospf_of packet))
            (ip_saddr packet)
            (get32 (mospf_of packet) 16)
            s)
unfolding handle_mospf_packet handle_mospf_hello
hello_accepted kernel to packet s v t c a m i =
    rw
      (
        handle_mospf_packet,
        eq→== v,
        eq→== (sym c),
        eq→== a,
        eq→== t,
        handle_mospf_hello,
        eq→== c,
        eq→== m,
        eq→== i,
      )
      refl

-- The hello of the router `rid` by its interface `from`, as it comes in by an interface `to` with the
-- same mask, at a router in the same area: it passes all checks, and the neighbours of that interface
-- are brought up to date with the number and the address of the sender.
pub hello-arrives :
    (kernel : List RtEntry) (id rid : ℕ) (from to : Iface) (s : Instance)
    → length from.mac ≡ 6
    → rid < 2 ^ 32
    → from.ip < 2 ^ 32
    → from.mask < 2 ^ 32
    → s.area_id < 2 ^ 32
    → to.mask ≡ from.mask
    → handle_mospf_packet kernel to
        (mospf_packet id from mospf_all_spf_routers (hello_message rid s.area_id from.mask))
        s
      ≡ some (update_nbr_list_via_hello to rid from.ip from.mask s)
unfolding hello_message
hello-arrives kernel id rid from to s six h1 h2 h3 h4 e =
    let msg = hello_message rid s.area_id from.mask in
    let m = packet-message id from mospf_all_spf_routers msg six in
    let f = message_fields mospf_type_hello 24 rid s.area_id (mospf_init_hello from.mask) h1 h4 in
    let mask = ap (λ x. get32 x 16) m ∙ (hello_fields rid s.area_id from.mask h3).0 in
    hello_accepted kernel to (mospf_packet id from mospf_all_spf_routers msg) s
      (ap (λ x. get_or x 0 0) m ∙ f.0) (ap (λ x. get_or x 1 0) m ∙ f.1)
      (ap mospf_checksum m
        ∙ (message-checks mospf_type_hello 24 rid s.area_id (mospf_init_hello from.mask)
            ∙ sym (ap (λ x. read_u16 x 12) m)))
      (ap (λ x. get32 x 8) m ∙ f.3) (mask ∙ sym e)
      (ap (λ x. get16 x 20) m ∙ (hello_fields rid s.area_id from.mask h3).1)
    ∙ (rw (ap mospf_rid m ∙ f.2, packet-saddr id from mospf_all_spf_routers msg six h2, mask) refl)

-- Is the sender in the subnet of the interface?
abbrev pub in_subnet : Iface → ℕ → ℕ → Bool
in_subnet iface ip mask = iface.mask == mask && bit_and iface.ip iface.mask == bit_and ip mask

-- Whom a hello leaves as the neighbour of its sender's number: the one who was there, and otherwise the
-- sender, if it is in the subnet. Either has 40 rounds to live.
abbrev pub greeted : Iface → ℕ → ℕ → ℕ → Option Nbr → Option Nbr
greeted iface rid ip mask (some n) = some (record n { alive = 40 })
greeted iface rid ip mask none =
    if in_subnet iface ip mask
    then some (record { nbr_id = rid; nbr_ip = ip; nbr_mask = mask; alive = 40 })
    else none

-- What a refresh finds and leaves.
abbrev Refreshed : ℕ → ℕ → List Nbr → Option (List Nbr) → Type 0
Refreshed k rid ns none = find_nbr rid ns ≡ none
Refreshed k rid ns (some ms) =
    (n : Nbr) × (find_nbr rid ns ≡ some n)
    × (find_nbr k ms ≡ (if k == rid then some (record n { alive = 40 }) else find_nbr k ns))
    × (length ms ≡ length ns)

refresh_nbr-Refreshed : (k rid : ℕ) (ns : List Nbr) → Refreshed k rid ns (refresh_nbr rid ns)
unfolding refresh_nbr find_nbr
refresh_nbr-Refreshed k rid [] = refl
refresh_nbr-Refreshed k rid (n ∷ ns) = elim (Bool-cases (n.nbr_id == rid)) [
  | inl t ↦ rw (refresh_nbr, t) (n, rw (find_nbr, t) refl, ground (arith, t), refl)
  | inr t ↦ elim (Option-cases (refresh_nbr rid ns)) [
    | inl e ↦
        let ih = subst (Refreshed k rid ns) e (refresh_nbr-Refreshed k rid ns) in
        rw (refresh_nbr, t, e) (rw (find_nbr, t) ih)
    | inr (ms, e) ↦
        let (m, f, g, l) = subst (Refreshed k rid ns) e (refresh_nbr-Refreshed k rid ns) in
        rw (refresh_nbr, t, e) (m, rw (find_nbr, t) f, ground (arith, g, t), ap suc l)
  ]
]

find_nbr-snoc :
    (k : ℕ) (ns : List Nbr) (n : Nbr)
    → find_nbr k (ns ++ (n ∷ []))
      ≡ elim (find_nbr k ns) [ some m ↦ some m | none ↦ if n.nbr_id == k then some n else none ]
unfolding find_nbr
find_nbr-snoc k [] n = refl
find_nbr-snoc k (m ∷ ms) n = ground (arith, find_nbr-snoc k ms n)

-- A hello leaves the neighbour of its sender's number as `greeted` says, and those of all other numbers
-- as they were. It is new exactly if there was none of that number and the sender is in the subnet, and
-- the number of neighbours grows with their list.
pub update_nbr_list-nbr :
    (k rid ip mask : ℕ) (i : NbrIface)
    → let (i', new) = update_nbr_list rid ip mask i in
      (find_nbr k i'.nbr_list ≡ (
        if k == rid
        then greeted i.iface rid ip mask (find_nbr rid i.nbr_list)
        else find_nbr k i.nbr_list))
      × (new ≡ elim (find_nbr rid i.nbr_list) [ some _ ↦ false | none ↦ in_subnet i.iface ip mask ])
      × (i'.num_nbr + length i.nbr_list ≡ i.num_nbr + length i'.nbr_list)
      × (i'.iface ≡ i.iface)
unfolding update_nbr_list same_subnet
update_nbr_list-nbr k rid ip mask i =
    let known = refresh_nbr-Refreshed k rid i.nbr_list in
    let new = new_nbr rid ip mask in
    elim (Option-cases (refresh_nbr rid i.nbr_list)) [
      | inr (ms, e) ↦
          let (n, f, g, l) = subst (Refreshed k rid i.nbr_list) e known in
          rw (update_nbr_list, e, f) (g, refl, omega (arith, l), refl)
      | inl e ↦
          let f = subst (Refreshed k rid i.nbr_list) e known in
          elim (Bool-cases (in_subnet i.iface ip mask)) [
            | inl t ↦
                rw (update_nbr_list, same_subnet, e, f, t)
                  (
                    find_nbr-snoc k i.nbr_list new ∙ (ground (arith, f)),
                    refl,
                    omega (arith, length-append i.nbr_list (new ∷ [])),
                    refl,
                  )
            | inr t ↦
                rw (update_nbr_list, same_subnet, e, f, t) (ground (arith, f), refl, refl, refl)
          ]
    ]
