-- ===== src/Controller/Commands.antt =====
-- The host's orders, from the bytes of their frame to the answer, through the main loop of
-- firmware2/matemat.c.
use matemat.Base.{
  ℕ, ◌<◌, ◌≡◌, false, Option, List, [], ◌∷◌, ◌++◌, arith, refl, ap, ◌∙◌, ◌≢◌, set, take, drop, true,
  ◌+◌, length, u8, ◌-◌, if◌then◌else◌,
}
use matemat.Base.Int.{ℤ}
use matemat.Serial.{
  Reader, serial_readline, readline, escape, end_mark, start_control, send_frames, put_s_enc,
  bufferlen,
}
use matemat.Priceline
use matemat.Controller.{Controller, Outcome, running, halted, main_pass, cmd, reply, codes}
use matemat.Display.{Output}

module _ (format : ℤ → Option (List ℕ)) (read : ℕ → Option ℤ) where
  -- One pass of the main loop for each word that `uart_getc` returns.
  pub passes : List ℕ → Controller → Outcome × List Output
  passes [] c = (running c, [])
  passes (i ∷ is) c =
      let (next, out) = main_pass format i read c in
      elim next [
        | halted ↦ (halted, out)
        | running c' ↦ let (last, rest) = passes is c' in (last, out ++ rest)
      ]

-- The controller after a pass that only received a character.
abbrev received : Controller → Reader → Controller
received c r = record c { reader = r; timer = record (c.timer) { timebase1s = false } }

module _ (format : ℤ → Option (List ℕ)) (read : ℕ → Option ℤ) where
  passes_quiet :
      (i : ℕ) (is : List ℕ) (c : Controller) (r : Reader)
      → c.timer.timebase10ms ≡ false
      → serial_readline i c.reader ≡ (0, r)
      → passes format read (i ∷ is) c ≡ passes format read is (received c r)
  unfolding passes main_pass
  passes_quiet i is c r flag e = ground arith

  main_pass_command :
      (i l : ℕ) (c : Controller) (r : Reader)
      → c.timer.timebase10ms ≡ false
      → serial_readline i c.reader ≡ (l, r)
      → 0 < l
      → l < 256
      → main_pass format i read c ≡ cmd l (received c r)
  unfolding main_pass
  main_pass_command i l c r flag e p q = ground arith

abbrev pub IsByte : ℕ → Type 0
IsByte d = (d < 256) × (d ≢ escape)

-- The reader while the frame of an order for `d` comes in.
abbrev pub in_order : ℕ → Reader → Reader
in_order d r = record r { buffer = set (set r.buffer 0 b's') 1 d; fill = 2; escaped = false }

abbrev pub after_order : ℕ → Reader → Reader
after_order d r = record (in_order d r) { serial_buffer = b's' ∷ d ∷ drop 2 r.serial_buffer }

take-set_two : (x y : ℕ) (b : List ℕ) → 1 < length b → take 2 (set (set b 0 x) 1 y) ≡ x ∷ y ∷ []
take-set_two x y [] h = absurd (omega arith)
take-set_two x y (_ ∷ []) h = absurd (omega arith)
take-set_two x y (_ ∷ _ ∷ b) h = refl

-- The words of the frame, with what the reader makes of each.
serial_readline-escape :
    (r : Reader) → r.escaped ≡ false → serial_readline escape r ≡ (0, record r { escaped = true })
unfolding serial_readline readline
serial_readline-escape r e = ground arith

serial_readline-start :
    (r : Reader)
    → r.escaped ≡ true
    → serial_readline start_control r ≡ (0, record r { escaped = false; fill = 0 })
unfolding serial_readline readline
serial_readline-start r e = ground arith

serial_readline-plain :
    (i : ℕ) (r : Reader)
    → IsByte i
    → r.escaped ≡ false
    → r.fill < 48
    → serial_readline i r ≡ (0, record r { buffer = set r.buffer r.fill i; fill = r.fill + 1 })
unfolding serial_readline readline
serial_readline-plain i r b e f = ground arith

serial_readline-end :
    (r : Reader)
    → r.escaped ≡ true
    → 0 < r.fill
    → serial_readline end_mark r ≡ (
      r.fill,
      record r {
        escaped = false;
        serial_buffer = take r.fill r.buffer ++ drop r.fill r.serial_buffer;
      },
    )
unfolding serial_readline readline
serial_readline-end r e f = ground arith

send_frames-order :
    (d : ℕ)
    → 0 < d
    → IsByte d
    → send_frames start_control (b's' ∷ d ∷ [])
      ≡ escape ∷ start_control ∷ b's' ∷ d ∷ escape ∷ end_mark ∷ []
unfolding send_frames put_s_enc
send_frames-order d p b = ground arith

-- All words of the frame but the last.
passes_order_text :
    (format : ℤ → Option (List ℕ)) (read : ℕ → Option ℤ) (d : ℕ) (c : Controller)
    → c.timer.timebase10ms ≡ false
    → c.reader.escaped ≡ false
    → IsByte d
    → passes format read (escape ∷ start_control ∷ b's' ∷ d ∷ escape ∷ end_mark ∷ []) c
      ≡ passes format read
          (end_mark ∷ [])
          (received c (record (in_order d c.reader) { escaped = true }))
passes_order_text format read d c flag e b =
    let r1 : Reader = record (c.reader) { escaped = true } in
    let r2 : Reader = record (c.reader) { escaped = false; fill = 0 } in
    let r3 : Reader = record r2 { buffer = set c.reader.buffer 0 b's'; fill = 1 } in
    let r4 : Reader = in_order d c.reader in
    let r5 : Reader = record r4 { escaped = true } in
    passes_quiet format read escape _ c r1 flag (serial_readline-escape c.reader e)
    ∙ passes_quiet format read start_control _ (received c r1) r2 flag
        (serial_readline-start r1 refl)
    ∙ passes_quiet format read b's' _ (received c r2) r3 flag
        (serial_readline-plain b's' r2 (omega arith) refl (omega arith))
    ∙ passes_quiet format read d _ (received c r3) r4 flag
        (serial_readline-plain d r3 b refl (omega arith))
    ∙ passes_quiet format read escape _ (received c r4) r5 flag (serial_readline-escape r4 refl)

passes_last :
    (format : ℤ → Option (List ℕ)) (read : ℕ → Option ℤ) (i : ℕ) (c c' : Controller)
    (out : List Output)
    → main_pass format i read c ≡ (running c', out)
    → passes format read (i ∷ []) c ≡ (running c', out ++ [])
unfolding passes
passes_last format read i c c' out e = ground arith

-- With no 10 ms tick due, no timer interrupt from the first pass to the last, the reader's array of 50
-- bytes and the reader not behind an escape: the frame of the host's order for a product (`s` and one
-- byte that is not 0 and needs no escape), one byte for each pass, is answered with `sO` exactly when
-- `priceline_serve` accepts the product's number, else with `sN`, and these passes send nothing else;
-- the price lines change as by `priceline_serve`, and but for them only the reader and the flag of the
-- second do.
pub passes-order :
    (format : ℤ → Option (List ℕ)) (read : ℕ → Option ℤ) (d : ℕ) (c : Controller)
    → c.timer.timebase10ms ≡ false
    → c.reader.escaped ≡ false
    → length c.reader.buffer ≡ bufferlen
    → 0 < d
    → IsByte d
    → let (p, accepted) = Priceline.serve (u8 (d + 256 - b'0')) c.price in
      passes format read (send_frames start_control (b's' ∷ d ∷ [])) c ≡ (
        running (record c {
          reader = after_order d c.reader;
          timer = record (c.timer) { timebase1s = false };
          price = p;
        }),
        reply (if accepted then codes "sO" else codes "sN"),
      )
unfolding cmd
passes-order format read d c flag e size p b =
    let r5 : Reader = record (in_order d c.reader) { escaped = true } in
    let text = take-set_two b's' d c.reader.buffer (omega arith) in
    let last : serial_readline end_mark r5 ≡ (2, after_order d c.reader) =
      serial_readline-end r5 refl (omega arith)
      ∙ ap
          (λ t. (
            2,
            record (in_order d c.reader) { serial_buffer = t ++ drop 2 c.reader.serial_buffer },
          ))
          text in
    rw (send_frames-order d p b, passes_order_text format read d c flag e b)
      (passes_last format read end_mark (received c r5) _ _ (
        main_pass_command format read end_mark 2 (received c r5) (after_order d c.reader) flag last
          (omega arith) (omega arith)))
