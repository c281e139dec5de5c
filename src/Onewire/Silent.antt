-- ===== src/Onewire/Silent.antt =====
-- The list command without devices (firmware/ecmd_parser/onewire.c).
use matemat.Base.{ℕ, ◌≡◌, refl, ap, ◌∙◌, true, false, arith, none, replicate, ◌==◌}
use matemat.Base.Int.{pos, negsuc}
use matemat.Onewire.{Line, Ow, ow_search_rom, search_from, reset_onewire}
use matemat.Onewire.Command.{parse_cmd_onewire_list, list_answer}
use matemat.Onewire.Listing.{parse_again, answer-end, if_true}
use matemat.Onewire.Search.{stopped}

module _ {B : Type 0} (l : Line B) where
  -- A search on a bus where a reset shows no device.
  ow_search_rom-silent :
      (o : Ow) (b : B)
      → (reset_onewire l b).0 ≡ false
      → ow_search_rom l true o b ≡ (
        negsuc 0,
        record o { last_discrepancy = negsuc 0; current_rom = replicate 8 0 },
        (reset_onewire l b).1,
      )
  unfolding ow_search_rom search_from
  ow_search_rom-silent o b h = rw h refl

  parse_none :
      (len : ℕ) (o : Ow) (b : B)
      → o.lock ≡ 0
      → (reset_onewire l b).0 ≡ false
      → parse_cmd_onewire_list l len o b ≡ (
        pos 0,
        none,
        record { lock = 1; last_discrepancy = negsuc 0; current_rom = replicate 8 0 },
        (reset_onewire l b).1,
      )
  unfolding parse_cmd_onewire_list
  parse_none len o b lock h =
      let c : (o.lock == 0) ≡ true = ground arith in
      if_true (o.lock == 0) _ _ c ∙ rw (ow_search_rom-silent (record o { lock = 1 }) b h) refl

  -- With the lock free and no device shown by the reset, the list command returns 0 but keeps the
  -- lock; the next list command, on any bus in any state, reports nothing and leaves the bus alone, and
  -- only then is the lock free.
  pub parse_cmd_onewire_list-silent :
      (len : ℕ) (o : Ow) (b : B) {B' : Type 0} (l' : Line B') (b' : B')
      → o.lock ≡ 0
      → (reset_onewire l b).0 ≡ false
      → let (ret, output, o1, b1) = parse_cmd_onewire_list l len o b in
        (ret ≡ pos 0)
        × (output ≡ none)
        × (o1.lock ≡ 1)
        × (parse_cmd_onewire_list l' len o1 b' ≡ (pos 0, none, record o1 { lock = 0 }, b'))
  parse_cmd_onewire_list-silent len o b l' b' lock h =
      let first = parse_none len o b lock h in
      let o1 : Ow = record { lock = 1; last_discrepancy = negsuc 0; current_rom = replicate 8 0 } in
      let again =
        parse_again l' len o1 b' refl
        ∙ (ap (list_answer len) (stopped l' o1 b' refl) ∙ answer-end len (pos 0, o1, b') refl) in
      rw first (refl, refl, refl, again)
