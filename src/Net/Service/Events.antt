-- ===== src/Net/Service/Events.antt =====
-- A change of the link.
use rpv_platforms_evt_driven.Base.{
  ℕ, ◌≡◌, refl, sym, ap, subst, ◌∙◌, inl, inr, if◌then◌else◌, Bool-cases, Bool, true, false, Option,
  some, List, [], ◌∷◌, ◌++◌,
}
use rpv_platforms_evt_driven.Dma.State.{Dma}
use rpv_platforms_evt_driven.Net.Phy.{Phy, Phylink, phylink}
use rpv_platforms_evt_driven.Net.Phy.Link.{indicated, is_up, phylink_lem}
use rpv_platforms_evt_driven.Net.Mac.{
  MacEffect, put_bit, transmit_enable, receiver_enable, trx_disable,
}
use rpv_platforms_evt_driven.Net.Mac.Transceiver.{on_words, trx_enable_lem, trx_enable-link_sig}
use rpv_platforms_evt_driven.Net.Lwip.{Lwip}
use rpv_platforms_evt_driven.Net.Service.{
  eth_linkup, eth_linkdown, PhyReads, Eth, link_up, link_down, phy_irqs, follow_link, link_event,
}

if-append :
    (b : Bool) (xs ys : List MacEffect)
    → (if b then xs ++ ys else ys) ≡ (if b then xs else []) ++ ys
if-append true xs ys = refl
if-append false xs ys = refl

module _ (lw : Lwip) where
  -- What a call that follows the link leaves, for the registers that it wrote and what lwIP was told.
  pub record Followed (s t : Eth lw) (regs : List MacEffect) (told : lw.Stack × Dma) : Type 0 where
    pub wrote : t.mac.regs ≡ regs ++ s.mac.regs
    pub knows : t.stack ≡ (if lw.has_netif s.stack then told.0 else s.stack)
    pub same_lk : t.lk ≡ s.lk
    pub same_reg : t.link_reg ≡ s.link_reg

  link_down-Followed :
      (s : Eth lw)
      → let t = link_down lw s in
        Followed s t
          (put_bit receiver_enable false ∷ put_bit transmit_enable false ∷ [])
          (lw.netif_set_link_down s.stack s.mac.dma)
        × (t.mac.phy ≡ s.mac.phy)
  unfolding link_down trx_disable
  link_down-Followed s = elim (Bool-cases (lw.has_netif s.stack)) [
    | inl e ↦
        rw (e, link_down)
          (record { wrote = refl; knows = rw e refl; same_lk = refl; same_reg = refl }, refl)
    | inr e ↦
        rw (e, link_down)
          (record { wrote = refl; knows = rw e refl; same_lk = refl; same_reg = refl }, refl)
  ]

  -- The reads of a link whose speed register can be read.
  abbrev pub reads : (status : Option ℕ) (scsr : ℕ) → Phylink → PhyReads
  reads status scsr stack = record { status = status; speed = some scsr; stack = stack }

  link_up-Followed :
      (status : Option ℕ) (scsr : ℕ) (stack : Phylink) (s : Eth lw)
      → let t = link_up lw (reads status scsr stack) s in
        Followed s t
          (if is_up status then on_words (indicated scsr stack) else [])
          (lw.netif_set_link_up s.stack s.mac.dma)
        × (t.mac.phy.link_sig ≡ false)
  unfolding link_up
  link_up-Followed status scsr stack s =
      let on = trx_enable_lem status scsr stack s.mac in
      let taken = trx_enable-link_sig status scsr stack s.mac in
      let words = on.0 ∙ if-append (is_up status) (on_words (indicated scsr stack)) s.mac.regs in
      elim (Bool-cases (lw.has_netif s.stack)) [
        | inl e ↦
            rw (e, link_up)
              (
                record {
                  wrote = words;
                  knows = rw e (ap (λ d. (lw.netif_set_link_up s.stack d).0) on.6);
                  same_lk = refl;
                  same_reg = refl;
                },
                taken,
              )
        | inr e ↦
            rw (e, link_up)
              (record { wrote = words; knows = rw e refl; same_lk = refl; same_reg = refl }, taken)
      ]

  -- The service, its transceiver and lwIP follow the link, which is up or not.
  pub record Follows (up : Bool) (lk on : Phylink) (s t : Eth lw) : Type 0 where
    pub reg : t.link_reg ≡ (if up then eth_linkup else eth_linkdown)
    pub kept : t.lk ≡ (if up then lk else s.lk)
    pub wrote :
        t.mac.regs
        ≡ (if up
            then on_words on
            else put_bit receiver_enable false ∷ put_bit transmit_enable false ∷ [])
          ++ s.mac.regs
    pub told : t.stack ≡ (
        if lw.has_netif s.stack
        then (if up
            then lw.netif_set_link_up s.stack s.mac.dma
            else lw.netif_set_link_down s.stack s.mac.dma).0
        else s.stack)
    pub taken : t.mac.phy.link_sig ≡ false

  follow_link-Follows :
      (up : Bool) (status : Option ℕ) (scsr : ℕ) (lk stack : Phylink) (phy : Phy) (s : Eth lw)
      → is_up status ≡ up
      → phy.link_sig ≡ false
      → Follows up lk
          (indicated scsr stack)
          s
          (follow_link lw (reads status scsr stack) up (if up then lk else s.lk) phy s)
  unfolding follow_link
  follow_link-Follows true status scsr lk stack phy s is sig =
      let m : Eth lw = record s {
        mac = record s.mac { phy = phy };
        lk = lk;
        link_reg = eth_linkup;
      } in
      let (f, taken) = link_up-Followed status scsr stack m in
      record {
        reg = f.same_reg;
        kept = f.same_lk;
        wrote =
            f.wrote
            ∙ ap (λ b. (if b then on_words (indicated scsr stack) else []) ++ s.mac.regs) is;
        told = f.knows;
        taken = taken;
      }
  follow_link-Follows false status scsr lk stack phy s is sig =
      let m : Eth lw = record s {
        mac = record s.mac { phy = phy };
        lk = s.lk;
        link_reg = eth_linkdown;
      } in
      let (f, same) = link_down-Followed m in
      record {
        reg = f.same_reg;
        kept = f.same_lk;
        wrote = f.wrote;
        told = f.knows;
        taken = ap (λ (p : Phy). p.link_sig) same ∙ sig;
      }

  -- The service follows what it read first.
  link_event-follow_link :
      (status : Option ℕ) (scsr : ℕ) (stack : Phylink) (second : PhyReads)
      → (irqs : List (Option ℕ × ℕ)) (s : Eth lw)
      → link_event lw (reads status scsr stack) second irqs s
        ≡ follow_link lw second
            (is_up status)
            (if is_up status then indicated scsr s.lk else s.lk)
            (phy_irqs irqs (phylink status (some scsr) (some s.lk) s.mac.phy).2)
            s
  unfolding link_event
  link_event-follow_link status scsr stack second irqs s =
      let (up, sig, lk) = phylink_lem status scsr s.lk s.mac.phy in rw (up, lk) refl

  -- When the link has changed, the PHY gives the same answers to both reads, and no interrupt
  -- falls between them, the service follows it. If the link is up, the last five registers written
  -- enable the receiver and the transmitter for frames of 1536 bytes at the indicated speed and duplex
  -- mode, which the service keeps for its command, and lwIP is told that the link is up; otherwise
  -- the transceiver is switched off and lwIP is told that it is down.
  -- The signal is taken.
  pub link_event-Follows :
      (status : Option ℕ) (scsr : ℕ) (stack stack' : Phylink) (s : Eth lw)
      → Follows
          (is_up status)
          (indicated scsr s.lk)
          (indicated scsr stack)
          s
          (link_event lw (reads status scsr stack') (reads status scsr stack) [] s)
  unfolding phy_irqs
  link_event-Follows status scsr stack stack' s =
      let again = reads status scsr stack in
      let phy = (phylink status (some scsr) (some s.lk) s.mac.phy).2 in
      subst (λ t. Follows (is_up status) (indicated scsr s.lk) (indicated scsr stack) s t)
        (sym (link_event-follow_link status scsr stack' again [] s))
        (follow_link-Follows (is_up status) status scsr (indicated scsr s.lk) stack phy s refl
          (phylink_lem status scsr s.lk s.mac.phy).1)

  -- Suppose that the link is up when the service reads it and down when `_xtemac_trxenable` reads
  -- it again, with any interrupts of the PHY in between. Then the service holds the link for up and
  -- tells lwIP so, no register switches the transceiver on, and the signal for the change is gone.
  pub link_event-lost :
      (first second : Option ℕ) (scsr scsr' : ℕ) (stack stack' : Phylink)
      → (irqs : List (Option ℕ × ℕ)) (s : Eth lw) → is_up first ≡ true
      → is_up second ≡ false
      → let t = link_event lw (reads first scsr stack') (reads second scsr' stack) irqs s in
        (t.link_reg ≡ eth_linkup)
        × (t.mac.regs ≡ s.mac.regs)
        × (t.stack ≡ (
            if lw.has_netif s.stack then (lw.netif_set_link_up s.stack s.mac.dma).0 else s.stack))
        × (t.mac.phy.link_sig ≡ false)
  unfolding follow_link
  link_event-lost first second scsr scsr' stack stack' irqs s up down =
      let phy = phy_irqs irqs (phylink first (some scsr) (some s.lk) s.mac.phy).2 in
      let m : Eth lw = record s {
        mac = record s.mac { phy = phy };
        lk = indicated scsr s.lk;
        link_reg = eth_linkup;
      } in
      let (f, taken) = link_up-Followed second scsr' stack m in
      let off = ap (λ b. (if b then on_words (indicated scsr' stack) else []) ++ s.mac.regs) down in
      rw (link_event-follow_link first scsr stack' (reads second scsr' stack) irqs s, up)
        (f.same_reg, f.wrote ∙ off, f.knows, taken)
