-- ===== src/Watchcat/Commands.antt =====
-- The commands that firmware/watchcat/watchcat.c sends for a change.
use matemat.Base.{
  ℕ, zero, suc, ◌+◌, ◌<◌, ◌≡◌, inl, inr, refl, ap, ◌∙◌, sym, Bool, true, false, List, [], ◌∷◌, ◌++◌,
  append_assoc, append-nil, if◌then◌else◌, get_or, length, length-set, arith, Bool-cases,
}
use matemat.Watchcat.{Reaction, VirtualPin, watchcat_edge, port_periodic, react, same}
use matemat.Watchcat.Settle.{port_run, port_run-settled}
use matemat.Watchcat.Differing.{same_refl, same_sound}
use matemat.Watchcat.Expected.{expected, expected_refl, watchcat_edge-expected, applies}

-- `n` calls for a port, every reading of which is `q`, with the commands sent.
unfoldable pub port_calls : List Reaction → ℕ → List Bool → ℕ → VirtualPin → VirtualPin × List ℕ
port_calls table port q zero v = (v, [])
port_calls table port q (suc n) v =
    let (v1, sent) = port_periodic table port q q q v in
    let (v2, rest) = port_calls table port q n v1 in (v2, sent ++ rest)

-- What a call for a port that was last read as `q` leaves of it.
record Follows (table : List Reaction) (port : ℕ) (q : List Bool) (v v' : VirtualPin)
    (sent : List ℕ) : Type 0 where
  read : v'.last_input ≡ q
  handler : v'.has_func ≡ true
  size : length v'.old_state ≡ length q
  commands : expected table port q v.old_state ≡ sent ++ expected table port q v'.old_state

watchcat_edge-kept :
    (table : List Reaction) (port : ℕ) (v : VirtualPin)
    → length v.old_state ≡ length v.state
    → let v' = (watchcat_edge table port v).0 in
      (v'.last_input ≡ v.last_input)
      × (v'.has_func ≡ v.has_func)
      × (length v'.old_state ≡ length v.state)
unfolding watchcat_edge
watchcat_edge-kept [] port v l = (refl, refl, refl)
watchcat_edge-kept (r ∷ table) port v l = elim (Bool-cases (applies r port v.state v.old_state)) [
  | inl y ↦ rw y (refl, refl, length-set v.old_state r.pin (get_or v.state r.pin false) ∙ l)
  | inr n ↦ rw n (watchcat_edge-kept table port v l)
]

if_true {ℓ} : {A : Type ℓ} (b : Bool) (x y : A) → b ≡ true → (if b then x else y) ≡ x
if_true true x y h = refl
if_true false x y h = absurd (ground arith)

react-Follows :
    (table : List Reaction) (port : ℕ) (v : VirtualPin)
    → length v.old_state ≡ length v.state
    → v.last_input ≡ v.state
    → v.has_func ≡ true
    → Follows table port v.state v (react table port v).0 (react table port v).1
unfolding react
react-Follows table port v l i f = elim (Bool-cases (same v.state v.old_state)) [
  | inl y ↦ rw y (record { read = i; handler = f; size = l; commands = refl })
  | inr n ↦
      let kept = watchcat_edge-kept table port v l in
      let handled =
        if_true v.has_func (watchcat_edge table port v) (record v { old_state = v.state }, []) f in
      rw (n, handled)
        (record {
          read = kept.0 ∙ i;
          handler = kept.1 ∙ f;
          size = kept.2;
          commands = watchcat_edge-expected table port v l;
        })
]

port_periodic-Follows :
    (table : List Reaction) (port : ℕ) (q : List Bool) (v : VirtualPin)
    → v.last_input ≡ q
    → v.has_func ≡ true
    → length v.old_state ≡ length q
    → let (v', sent) = port_periodic table port q q q v in Follows table port q v v' sent
unfolding port_periodic
port_periodic-Follows table port q v i f l =
    let v1 = record v { state = q; last_input = q } in
    let y : same v.last_input q ≡ true = rw i (same_refl q) in
    let h = react-Follows table port v1 l refl f in
    rw y (record { read = h.read; handler = h.handler; size = h.size; commands = h.commands })

-- The first call for a port without a change to report.
port_periodic-settled :
    (table : List Reaction) (port : ℕ) (q : List Bool) (v : VirtualPin)
    → v.old_state ≡ v.state
    → v.has_func ≡ true
    → length v.old_state ≡ length q
    → let (v', sent) = port_periodic table port q q q v in Follows table port q v v' sent
unfolding port_periodic react
port_periodic-settled table port q v e f l = elim (Bool-cases (same v.last_input q)) [
  | inl y ↦ let h = port_periodic-Follows table port q v (same_sound v.last_input q y) f l in h
  | inr n ↦
      let y : same v.state v.old_state ≡ true = rw e (same_refl v.state) in
      rw (n, y) (record { read = refl; handler = f; size = l; commands = refl })
]

port_calls-expected :
    (table : List Reaction) (port : ℕ) (q : List Bool) (n : ℕ) (v : VirtualPin)
    → v.last_input ≡ q
    → v.has_func ≡ true
    → length v.old_state ≡ length q
    → let (v', sent) = port_calls table port q n v in
      expected table port q v.old_state ≡ sent ++ expected table port q v'.old_state
unfolding port_calls
port_calls-expected table port q zero v i f l = refl
port_calls-expected table port q (suc n) v i f l =
    let h = port_periodic-Follows table port q v i f l in
    let (v1, sent) = port_periodic table port q q q v in
    let (v2, rest) = port_calls table port q n v1 in
    h.commands
    ∙ (ap (λ (t : List ℕ). sent ++ t)
          (port_calls-expected table port q n v1 h.read h.handler h.size)
        ∙ sym (append_assoc sent rest (expected table port q v2.old_state)))

port_calls-port_run :
    (table : List Reaction) (port : ℕ) (q : List Bool) (n : ℕ) (v : VirtualPin)
    → (port_calls table port q n v).0 ≡ port_run table port q n v
unfolding port_calls port_run
port_calls-port_run table port q zero v = refl
port_calls-port_run table port q (suc n) v =
    port_calls-port_run table port q n (port_periodic table port q q q v).0

-- A port with the handler, without a change to report, is read as the same byte of as many pins
-- from now on: in any number of calls that is at least one more than it has pins, the commands
-- sent are those expected for the change from its state to that byte, each once and in the order
-- of the table, whatever the table; after that the byte is its state and nothing is left to report.
pub port_calls-commands :
    (table : List Reaction) (port : ℕ) (q : List Bool) (more : ℕ) (v : VirtualPin)
    → v.old_state ≡ v.state
    → v.has_func ≡ true
    → length v.state ≡ length q
    → 0 < length q
    → let (v', sent) = port_calls table port q (suc (length q + more)) v in
      (sent ≡ expected table port q v.state) × (v'.state ≡ q) × (v'.old_state ≡ q)
unfolding port_calls
port_calls-commands table port q more v e f l p =
    let n = length q + more in
    let len : length v.old_state ≡ length q = ap length e ∙ l in
    let first = port_periodic-settled table port q v e f len in
    let (v1, sent) = port_periodic table port q q q v in
    let (v2, rest) = port_calls table port q n v1 in
    let later = port_calls-expected table port q n v1 first.read first.handler first.size in
    let settled = port_run-settled table port q more v l len p in
    let whole = port_calls-port_run table port q (suc n) v in
    let state_q : v2.state ≡ q = ap (λ (u : VirtualPin). u.state) whole ∙ settled.0 in
    let old_q : v2.old_state ≡ q = ap (λ (u : VirtualPin). u.old_state) whole ∙ settled.1 in
    let none : expected table port q v2.old_state ≡ [] = rw old_q (expected_refl table port q) in
    let total : expected table port q v.old_state ≡ sent ++ rest =
      first.commands
      ∙ ap (λ (t : List ℕ). sent ++ t)
          (later ∙ (ap (λ (t : List ℕ). rest ++ t) none ∙ append-nil rest)) in
    (sym total ∙ ap (expected table port q) e, state_q, old_q)
