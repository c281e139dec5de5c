-- ===== src/Serial/Senders.antt =====
-- The senders of firmware2/serial_handler.c agree: by string, by array and by character.
use matemat.Base.{ℕ, ◌<◌, ◌≡◌, refl, some, List, [], ◌∷◌, ◌++◌, arith, length, All}
use matemat.Serial.{put_c_enc, put_s_enc, put_enc, send_frames, send_framec}

abbrev NoNul : List ℕ → Type 0
NoNul s = All (λ c. 0 < c) s

pub put_s_enc-append : (s t : List ℕ) → NoNul s → put_s_enc (s ++ t) ≡ put_s_enc s ++ put_s_enc t
unfolding put_s_enc
put_s_enc-append [] t h = refl
put_s_enc-append (c ∷ s) t h = ground (arith, put_s_enc-append s t h.1)

pub put_c_enc-eq : (c : ℕ) → 0 < c → put_c_enc c ≡ put_s_enc (c ∷ [])
unfolding put_c_enc put_s_enc
put_c_enc-eq c h = ground arith

put_enc-eq : (s : List ℕ) → NoNul s → put_enc s (length s) ≡ some (put_s_enc s)
unfolding put_enc put_s_enc
put_enc-eq [] h = refl
put_enc-eq (c ∷ s) h = ground (arith, put_enc-eq s h.1)

-- For a text without NUL, `serial_putenc` over its whole array writes the same bytes as
-- `serial_putsenc`, which are those of `serial_putcenc` for its characters one by one, and the
-- frame of a text of one character is that of `serial_sendFramec`.
senders_agree :
    (command c : ℕ) (s : List ℕ)
    → 0 < c
    → NoNul s
    → (put_enc s (length s) ≡ some (put_s_enc s))
      × (put_s_enc (c ∷ s) ≡ put_c_enc c ++ put_s_enc s)
      × (send_framec command c ≡ send_frames command (c ∷ []))
unfolding send_frames send_framec put_s_enc
senders_agree command c s p h = (put_enc-eq s h, ground arith, ground arith)
