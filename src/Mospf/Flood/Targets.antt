-- ===== src/Mospf/Flood/Targets.antt =====
-- Who gets an update that is passed on.
use njucn_lab.Common.{
  ℕ, ◌+◌, ◌%◌, ◌<◌, ◌≡◌, ◌≢◌, refl, inl, inr, sym, ap, ◌∙◌, List, [], ◌∷◌, ◌++◌, true, false,
  Bool-cases, ltb, arith, if◌then◌else◌,
}
use njucn_lab.Router.Rtable.{Iface}
use njucn_lab.Router.State.{Router, same_iface}
use njucn_lab.Router.Icmp.{ip_send_packet}
use njucn_lab.Mospf.Instance.{Nbr, NbrIface, Instance}
use njucn_lab.Mospf.Proto.{mospf_of}
use njucn_lab.Mospf.Flood.{lsu_ttl, on_message, age_lsu, lsu_copy, forward_on, forward_lsu, flood}
use njucn_lab.Mospf.Flood.Copies.{with_ttl-IsCopy}
use njucn_lab.Mospf.Flood.Packets.{HoldsLsu, on_message-message, mospf_of-length}

-- The neighbours on all interfaces but one, in order.
unfoldable pub targets : Iface → List NbrIface → List Nbr
targets iface [] = []
targets iface (i ∷ is) =
    let rest = targets iface is in if same_iface i.iface iface then rest else i.nbr_list ++ rest

-- Each packet goes out by its route, one after the other.
abbrev pub send_each : List (List ℕ) → Router → Router
send_each [] r = r
send_each (p ∷ ps) r = send_each ps (ip_send_packet p r)

-- The copies for the neighbours, one for each.
abbrev pub copies : List ℕ → List Nbr → List (List ℕ)
copies packet [] = []
copies packet (n ∷ ns) = lsu_copy n packet ∷ copies packet ns

forward_on-send_each :
    (packet : List ℕ) (ns : List Nbr) (r : Router)
    → forward_on packet ns r ≡ send_each (copies packet ns) r
unfolding forward_on
forward_on-send_each packet [] r = refl
forward_on-send_each packet (n ∷ ns) r =
    forward_on-send_each packet ns (ip_send_packet (lsu_copy n packet) r)

forward_on-append :
    (packet : List ℕ) (ns ms : List Nbr) (r : Router)
    → forward_on packet (ns ++ ms) r ≡ forward_on packet ms (forward_on packet ns r)
unfolding forward_on
forward_on-append packet [] ms r = refl
forward_on-append packet (n ∷ ns) ms r =
    forward_on-append packet ns ms (ip_send_packet (lsu_copy n packet) r)

forward_lsu-targets :
    (iface : Iface) (packet : List ℕ) (is : List NbrIface) (r : Router)
    → forward_lsu iface packet is r ≡ forward_on packet (targets iface is) r
unfolding forward_lsu targets forward_on
forward_lsu-targets iface packet [] r = refl
forward_lsu-targets iface packet (i ∷ is) r = elim (Bool-cases (same_iface i.iface iface)) [
  | inl t ↦ rw (forward_lsu, targets, t) (forward_lsu-targets iface packet is r)
  | inr t ↦
      rw (forward_lsu, targets, t)
        (forward_lsu-targets iface packet is (forward_on packet i.nbr_list r)
          ∙ sym (forward_on-append packet i.nbr_list (targets iface is) r))
]

-- An update that has one hop left goes no further; any other one is sent once to each neighbour on the
-- other interfaces, and to nobody on the interface by which it came in.
pub flood_lem :
    (iface : Iface) (packet : List ℕ) (s : Instance)
    → HoldsLsu packet
    → (lsu_ttl (mospf_of packet) ≡ 1 → flood iface packet s ≡ s)
      × (lsu_ttl (mospf_of packet) ≢ 1
          → lsu_ttl (mospf_of packet) < 256
          → flood iface packet s ≡ record s {
            router =
                send_each
                  (copies (on_message age_lsu packet) (targets iface s.iface_list))
                  s.router;
          })
unfolding flood age_lsu
flood_lem iface packet s h =
    let msg = mospf_of packet in
    let one = with_ttl-IsCopy ((lsu_ttl msg + 255) % 256) msg (mospf_of-length packet h) in
    let t : lsu_ttl (mospf_of (on_message age_lsu packet)) ≡ (lsu_ttl msg + 255) % 256 =
      ap lsu_ttl (on_message-message age_lsu packet h) ∙ one.time in
    (
      λ e.
          let stop : ltb 0 (lsu_ttl (mospf_of (on_message age_lsu packet))) ≡ false =
            ground (arith, t, e) in
          rw (flood, stop) refl,
      λ n b.
          let go : ltb 0 (lsu_ttl (mospf_of (on_message age_lsu packet))) ≡ true =
            ground (arith, t, n, b) in
          rw (flood, go)
            (ap (λ r. record s { router = r })
              (forward_lsu-targets iface (on_message age_lsu packet) s.iface_list s.router
                ∙ forward_on-send_each (on_message age_lsu packet) (targets iface s.iface_list)
                    s.router)),
    )
