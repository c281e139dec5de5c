-- ===== src/Watchcat.antt =====
-- firmware/watchcat/watchcat.c: commands that are sent when pins change.
-- A port's byte is the list of its pins' levels. The table of reactions, which the user's
-- configuration defines, and the readings of a port are arguments; a command is a number.
pub mod Differing
pub mod Settle
pub mod Expected
pub mod Commands
mod Tests
use matemat.Base.{
  ◌+◌, ℕ, Bool, true, false, not, ◌&&◌, ◌||◌, List, [], ◌∷◌, ◌++◌, ◌==◌, if◌then◌else◌, set, get_or,
  replicate,
}

-- A reaction of `ecmd_react`; `command` stands for its address and its message.
pub record Reaction : Type 0 where
  pub port : ℕ
  pub pin : ℕ
  pub rising : Bool
  pub command : ℕ

-- `has_func` says whether the port's handler is `watchcat_edge` or none.
pub record VirtualPin : Type 0 where
  pub old_state : List Bool
  pub state : List Bool
  pub last_input : List Bool
  pub has_func : Bool

-- The comparison of two bytes.
unfoldable pub same : List Bool → List Bool → Bool
same [] [] = true
same (true ∷ xs) (true ∷ ys) = same xs ys
same (false ∷ xs) (false ∷ ys) = same xs ys
same _ _ = false

abbrev pub rising_edge : VirtualPin → ℕ → Bool
rising_edge v pin = not (get_or v.old_state pin false) && get_or v.state pin false

abbrev pub falling_edge : VirtualPin → ℕ → Bool
falling_edge v pin = not (get_or v.state pin false) && get_or v.old_state pin false

abbrev pub watchcat_init : ℕ → VirtualPin
watchcat_init i = record {
  old_state = replicate 8 false;
  state = replicate 8 false;
  last_input = replicate 8 false;
  has_func = i == 0;
}

-- `watchcat_edge`: the loop over the table, of which the end is its row with the port 255.
unfoldable pub watchcat_edge : List Reaction → ℕ → VirtualPin → VirtualPin × List ℕ
watchcat_edge [] port v = (record v { old_state = v.state }, [])
watchcat_edge (r ∷ table) port v =
    let rest = watchcat_edge table port v in
    if (r.port == port)
      && ((r.rising && rising_edge v r.pin) || (not r.rising && falling_edge v r.pin))
    then (
      record v { old_state = set v.old_state r.pin (get_or v.state r.pin false) },
      r.command ∷ [],
    )
    else rest

-- What a port does when its state has changed since the last call.
unfoldable pub react : List Reaction → ℕ → VirtualPin → VirtualPin × List ℕ
react table port v =
    let reacted = watchcat_edge table port v in
    if same v.state v.old_state
    then (v, [])
    else if v.has_func
    then reacted
    else (record v { old_state = v.state }, [])

-- The body of the loop of `watchcat_periodic` for one port, which is read up to three times.
unfoldable pub port_periodic :
    List Reaction → ℕ → List Bool → List Bool → List Bool → VirtualPin → VirtualPin × List ℕ
port_periodic table port first second third v =
    let read = if same v.last_input first then record v { state = second } else v in
    react table port (record read { last_input = third })

-- `watchcat_periodic`, from the port `i` on, with the three readings of each port.
pub watchcat_periodic :
    List Reaction
    → ℕ
    → List (List Bool × List Bool × List Bool × VirtualPin)
    → List VirtualPin × List ℕ
watchcat_periodic table i [] = ([], [])
watchcat_periodic table i ((first, second, third, v) ∷ ports) =
    let (v1, sent) = port_periodic table i first second third v in
    let (vs, rest) = watchcat_periodic table (i + 1) ports in (v1 ∷ vs, sent ++ rest)
