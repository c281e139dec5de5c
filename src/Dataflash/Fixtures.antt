-- ===== src/Dataflash/Fixtures.antt =====
-- A flash with a fresh file system, for runs of firmware/dataflash/fs.c.
use matemat.Base.{
  ℕ, ◌+◌, ◌%◌, ◌≡◌, refl, Bool, true, false, arith, List, [], replicate, Option, none, some,
}
use matemat.Dataflash.{
  Fs, Env, Status, fs_ok, fs_mem, fs_nosuchfile, fs_eof, fs_badpage, fs_badinode, fs_duplicate,
  fs_badseek,
}
use matemat.Dataflash.Pages.{fs_mark}
use matemat.Dataflash.Root.{mark_tables, fs_format}

abbrev pub test_env : Env
test_env = record { crc_update = λ crc c. (crc + c) % 256; junk = [] }

abbrev pub raw : Fs
raw = record {
  flash = record {
    memory = λ p. replicate 528 0;
    buf1 = replicate 528 0;
    buf2 = replicate 528 255;
  };
  root = 0;
  version = 0;
  last_free = 0;
}

abbrev pub formatted : Fs
formatted = mark_tables test_env 0 16 (fs_mark 0 false (fs_format test_env raw).0)

-- The state that a successful run leaves.
abbrev pub state : Option (Fs × Status) → Fs
state r = elim r [ some (fs, ret) ↦ fs | none ↦ raw ]

unfoldable pub succeeds : Option (Fs × Status) → Bool
succeeds r = elim r [ some (fs, ret) ↦ elim ret [ fs_ok ↦ true | other ↦ false ] | none ↦ false ]

pub succeeds-state : (r : Option (Fs × Status)) → succeeds r ≡ true → r ≡ some (state r, fs_ok)
unfolding succeeds
succeeds-state none h = absurd (ground arith)
succeeds-state (some (fs, fs_ok)) h = refl
succeeds-state (some (fs, fs_mem)) h = absurd (ground arith)
succeeds-state (some (fs, fs_nosuchfile)) h = absurd (ground arith)
succeeds-state (some (fs, fs_eof)) h = absurd (ground arith)
succeeds-state (some (fs, fs_badpage)) h = absurd (ground arith)
succeeds-state (some (fs, fs_badinode)) h = absurd (ground arith)
succeeds-state (some (fs, fs_duplicate)) h = absurd (ground arith)
succeeds-state (some (fs, fs_badseek)) h = absurd (ground arith)

abbrev pub root_page : List ℕ
root_page = formatted.flash.memory 0
