-- ===== src/Dataflash/Pages.antt =====
-- The pages of firmware/dataflash/fs.c that are known as free.
use matemat.Base.{
  ℕ, zero, suc, ◌+◌, ◌-◌, ◌/◌, ◌%◌, ◌^◌, Bool, not, ◌&&◌, [], ◌∷◌, ◌==◌, if◌then◌else◌, test_bit,
}
use matemat.Dataflash.{Fs, df_buf2, df_buf_read, df_buf_write, df_pages, none_ffff}
use matemat.Dataflash.Layout.{byte}

-- `b | _BV(i)` and `b & ~_BV(i)`.
abbrev pub set_bit : ℕ → ℕ → ℕ
set_bit b i = if test_bit b i then b else b + 2 ^ i

abbrev pub clear_bit : ℕ → ℕ → ℕ
clear_bit b i = if test_bit b i then b - 2 ^ i else b

unfoldable pub fs_mark : ℕ → Bool → Fs → Fs
fs_mark page is_free fs =
    let b = byte (df_buf_read df_buf2 (page / 8) 1 fs.flash) 0 in
    let marked = if is_free then set_bit b (page % 8) else clear_bit b (page % 8) in
    record fs { flash = df_buf_write df_buf2 (marked ∷ []) (page / 8) fs.flash }

unfoldable pub fs_used : Fs → ℕ → Bool
fs_used fs page = not (test_bit (byte (df_buf_read df_buf2 (page / 8) 1 fs.flash) 0) (page % 8))

-- The loop of `fs_new_page`, for at most as many pages as there are.
unfoldable pub free_page : ℕ → Fs → ℕ → ℕ
free_page zero fs page = page
free_page (suc n) fs page =
    let rest = free_page n fs ((page + 1) % df_pages) in
    if fs_used fs page && not (page == fs.last_free) then rest else page

unfoldable pub fs_new_page : Fs → Fs × ℕ
fs_new_page fs =
    let page = free_page df_pages fs ((fs.last_free + 1) % df_pages) in
    if page == fs.last_free then (fs, none_ffff) else (record fs { last_free = page }, page)
