-- ===== src/Watchcat/Settle.antt =====
-- How long firmware/watchcat/watchcat.c reacts to a change.
use matemat.Base.{
  if_cases, ℕ, zero, suc, ◌≤◌, ◌<◌, ◌≡◌, refl, ◌∙◌, ap, Bool, true, false, List, [], ◌∷◌, ◌==◌,
  arith, get_or, length, length-set, Bool-cases, inl, inr, not, ◌&&◌, ◌||◌, sym, if◌then◌else◌, ◌-◌,
  ◌+◌,
}
use matemat.Watchcat.{
  Reaction, VirtualPin, same, rising_edge, falling_edge, watchcat_edge, port_periodic, react,
}
use matemat.Watchcat.Differing.{
  differing, same_refl, same_sound, differing-bound, differing-zero, differing_refl, differing-set,
}

-- A port in the state `r` that was last read as `q`, with `n` pins still to be reported at most.
record IsReporting (r q : List Bool) (n : ℕ) (v : VirtualPin) : Type 0 where
  is_state : v.state ≡ r
  is_input : v.last_input ≡ q
  size : length v.old_state ≡ length r
  left : differing r v.old_state ≤ n

watchcat_edge-IsReporting :
    (table : List Reaction) (port : ℕ) (r q : List Bool) (v : VirtualPin) (n : ℕ)
    → IsReporting r q (suc n) v
    → IsReporting r q n (watchcat_edge table port v).0
unfolding watchcat_edge
watchcat_edge-IsReporting [] port r q v n h = record {
  is_state = h.is_state;
  is_input = h.is_input;
  size = ap length h.is_state;
  left = omega (arith, ap (differing r) h.is_state, differing_refl r);
}
watchcat_edge-IsReporting (a ∷ table) port r q v n h =
    let ih = watchcat_edge-IsReporting table port r q v n h in
    let hit =
      (a.port == port)
      && ((a.rising && rising_edge v a.pin) || (not a.rising && falling_edge v a.pin)) in
    let seen : get_or r a.pin false ≡ get_or v.state a.pin false = rw h.is_state refl in
    let changed : hit ≡ true
        → (get_or r a.pin false && not (get_or v.old_state a.pin false))
            || (not (get_or r a.pin false) && get_or v.old_state a.pin false)
          ≡ true =
      λ y. ground (arith, y, seen) in
    elim (Bool-cases hit) [
      | inl y ↦ rw y (record {
        is_state = h.is_state;
        is_input = h.is_input;
        size = length-set v.old_state a.pin (get_or v.state a.pin false) ∙ h.size;
        left =
            rw⁻¹ seen
              (omega (arith, h.left, differing-set r v.old_state a.pin (sym h.size) (changed y)));
      })
      | inr n ↦ rw n ih
    ]

react-IsReporting :
    (table : List Reaction) (port : ℕ) (r q : List Bool) (v : VirtualPin) (n : ℕ)
    → IsReporting r q (suc n) v
    → IsReporting r q n (react table port v).0
unfolding react
react-IsReporting table port r q v n h =
    let edge = watchcat_edge-IsReporting table port r q v n h in
    let settled : same v.state v.old_state ≡ true → IsReporting r q n v = λ y. record {
      is_state = h.is_state;
      is_input = h.is_input;
      size = h.size;
      left = omega (
        arith,
        ap (differing r) (sym (same_sound v.state v.old_state y) ∙ h.is_state),
        differing_refl r,
      );
    } in
    let copied : IsReporting r q n (record v { old_state = v.state }) = record {
      is_state = h.is_state;
      is_input = h.is_input;
      size = ap length h.is_state;
      left = omega (arith, ap (differing r) h.is_state, differing_refl r);
    } in
    elim (Bool-cases (same v.state v.old_state)) [
      | inl y ↦ rw y (settled y)
      | inr differ ↦
          rw differ
            (if_cases (λ (x : VirtualPin × List ℕ). IsReporting r q n x.0) v.has_func edge copied)
    ]

-- `n` calls for a port, every reading of which is `q`.
unfoldable pub port_run : List Reaction → ℕ → List Bool → ℕ → VirtualPin → VirtualPin
port_run table port q zero v = v
port_run table port q (suc n) v = port_run table port q n (port_periodic table port q q q v).0

port_periodic-first :
    (table : List Reaction) (port : ℕ) (q : List Bool) (v : VirtualPin)
    → length v.state ≡ length q
    → length v.old_state ≡ length q
    → let v' = (port_periodic table port q q q v).0 in
      (v'.last_input ≡ q) × (length v'.old_state ≡ length q)
unfolding port_periodic
port_periodic-first table port q v l m =
    let read = if same v.last_input q then record v { state = q } else v in
    let v1 = record read { last_input = q } in
    let lengths : (length v1.state ≡ length q) × (length v1.old_state ≡ length q) =
      if_cases (λ (x : VirtualPin). (length x.state ≡ length q) × (length x.old_state ≡ length q))
        (same v.last_input q) (refl, m) (l, m) in
    let start : IsReporting v1.state q (suc (length v1.state)) v1 = record {
      is_state = refl;
      is_input = refl;
      size = lengths.1 ∙ sym lengths.0;
      left = omega (arith, differing-bound v1.state v1.old_state);
    } in
    let h = react-IsReporting table port v1.state q v1 (length v1.state) start in
    (h.is_input, h.size ∙ lengths.0)

port_periodic-later :
    (table : List Reaction) (port : ℕ) (q : List Bool) (v : VirtualPin) (n : ℕ)
    → v.last_input ≡ q
    → length v.old_state ≡ length q
    → differing q v.old_state ≤ suc n
    → IsReporting q q n (port_periodic table port q q q v).0
unfolding port_periodic
port_periodic-later table port q v n i l d =
    let v1 = record v { state = q; last_input = q } in
    let y : same v.last_input q ≡ true = rw i (same_refl q) in
    let h =
      react-IsReporting table port q q v1 n
        (record { is_state = refl; is_input = refl; size = l; left = d }) in
    rw y h

port_run-IsReporting :
    (table : List Reaction) (port : ℕ) (q : List Bool) (n m : ℕ) (v : VirtualPin)
    → IsReporting q q m v
    → IsReporting q q (m - n) (port_run table port q n v)
unfolding port_run
port_run-IsReporting table port q zero m v h = let e : m - 0 ≡ m = omega arith in rw e h
port_run-IsReporting table port q (suc n) m v h =
    let h1 = port_periodic-later table port q v (m - 1) h.is_input h.size (omega (arith, h.left)) in
    let rest = port_run-IsReporting table port q n (m - 1) _ h1 in
    let e : m - 1 - n ≡ m - suc n = omega arith in rw e at rest

-- From any state, while a port of as many pins is read as the same byte: after at least one call
-- more than it has pins, its state is that byte, and every change of a pin has been dealt with,
-- whatever the table of reactions and with the handler or without.
pub port_run-settled :
    (table : List Reaction) (port : ℕ) (q : List Bool) (more : ℕ) (v : VirtualPin)
    → length v.state ≡ length q
    → length v.old_state ≡ length q
    → 0 < length q
    → let v' = port_run table port q (suc (length q + more)) v in
      (v'.state ≡ q) × (v'.old_state ≡ q)
unfolding port_run
port_run-settled table port q more v l m p =
    let seen = port_periodic-first table port q v l m in
    let v1 = (port_periodic table port q q q v).0 in
    let bound = differing-bound q v1.old_state in
    let n = length q - 1 in
    let e : length q + more ≡ suc (n + more) = omega arith in
    let later = port_periodic-later table port q v1 n seen.0 seen.1 (omega (arith, bound)) in
    let h = port_run-IsReporting table port q (n + more) n _ later in
    let none : differing q (port_run table port q (suc (n + more)) v1).old_state ≡ 0 =
      omega (arith, h.left) in
    rw e (h.is_state, sym (differing-zero q _ (sym h.size) none))
