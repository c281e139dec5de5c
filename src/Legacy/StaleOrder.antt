-- ===== src/Legacy/StaleOrder.antt =====
-- An order in firmware/matemat/matemat.c that comes after the customer's request has ended.
use matemat.Base.{ℕ, suc, zero, ◌≡◌, refl, ◌∙◌, true, false, [], ◌∷◌, arith}
use matemat.Legacy.{Machine, udr, timer_overflow, usart_rx}

-- `n` timer interrupts that find both price lines low.
pub idle : ℕ → Machine → Machine
idle zero m = m
idle (suc n) m = idle n (timer_overflow false false m).0

timer_overflow-kept :
    (m : Machine)
    → m.pl ≡ b'-'
    → ((timer_overflow false false m).0.pl ≡ b'-')
      × ((timer_overflow false false m).0.serve1 ≡ m.serve1)
      × ((timer_overflow false false m).0.serve3 ≡ m.serve3)
unfolding timer_overflow
timer_overflow-kept m e = ground arith

idle-kept :
    (n : ℕ) (m : Machine)
    → m.pl ≡ b'-'
    → ((idle n m).serve1 ≡ m.serve1) × ((idle n m).serve3 ≡ m.serve3)
unfolding idle
idle-kept zero m e = (refl, refl)
idle-kept (suc n) m e =
    let k = timer_overflow-kept m e in
    let ih = idle-kept n (timer_overflow false false m).0 k.0 in (ih.0 ∙ k.1, ih.1 ∙ k.2)

-- While no message is being received and no product is requested, after product 1 was the last that
-- was reported to the host: `O` is answered with `D`, the serve line of product 1 is switched on, and
-- it is still on after any number of timer interrupts with both price lines low.
stale_order-stuck :
    (n : ℕ) (m : Machine)
    → m.print ≡ 0
    → m.pl ≡ b'-'
    → m.reported ≡ b'1'
    → let (m', out) = usart_rx false b'O' m in
      (out ≡ udr b'D' ∷ []) × (m'.serve1 ≡ true) × ((idle n m').serve1 ≡ true)
unfolding usart_rx
stale_order-stuck n m p e r = ground (arith, idle-kept n (usart_rx false b'O' m).0)
