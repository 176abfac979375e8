-- ===== src/Net/Mac/Address.antt =====
-- The MAC address is stored and read back.
use rpv_platforms_evt_driven.Base.{
  ℕ, ◌^◌, ◌<◌, ◌≡◌, refl, arith, ltb, if◌then◌else◌, List, [], ◌∷◌, ◌++◌, drop,
}
use rpv_platforms_evt_driven.Base.Bits.{field}
use rpv_platforms_evt_driven.Net.Mac.{Mac, mac_addrlen, set_mac, xtemac_mac}

-- After an address of six bytes was set, a read with a length of at most six gives the six bytes in
-- order, whatever the length is, and leaves the bytes behind them; a read with a greater length
-- leaves the destination as it was.
pub xtemac_mac-set_mac :
    (m0 m1 m2 m3 m4 m5 : ℕ) (dst : List ℕ) (len : ℕ) (s : Mac)
    → m0 < 2 ^ 8
    → m1 < 2 ^ 8
    → m2 < 2 ^ 8
    → m3 < 2 ^ 8
    → m4 < 2 ^ 8
    → m5 < 2 ^ 8
    → let mac = m0 ∷ m1 ∷ m2 ∷ m3 ∷ m4 ∷ m5 ∷ [] in
      xtemac_mac dst len (set_mac mac s)
      ≡ (if ltb mac_addrlen len then dst else mac ++ drop mac_addrlen dst)
unfolding xtemac_mac set_mac
xtemac_mac-set_mac m0 m1 m2 m3 m4 m5 dst len s h0 h1 h2 h3 h4 h5 =
    let t = set_mac (m0 ∷ m1 ∷ m2 ∷ m3 ∷ m4 ∷ m5 ∷ []) s in
    let e0 : field t.uaw1 8 8 ≡ m0 = omega arith in
    let e1 : field t.uaw1 0 8 ≡ m1 = omega arith in
    let e2 : field t.uaw0 24 8 ≡ m2 = omega arith in
    let e3 : field t.uaw0 16 8 ≡ m3 = omega arith in
    let e4 : field t.uaw0 8 8 ≡ m4 = omega arith in
    let e5 : field t.uaw0 0 8 ≡ m5 = omega arith in rw (e0, e1, e2, e3, e4, e5) refl
