-- ===== src/Dataflash/Allocation.antt =====
-- Which page `fs_new_page` (firmware/dataflash/fs.c) takes.
use matemat.Base.{
  refl, ℕ, zero, suc, ◌+◌, ◌-◌, ◌%◌, ◌<◌, ◌≡◌, ◌≢◌, true, false, inl, inr, ◌==◌, ==_iff, Bool-cases,
  if◌then◌else◌, arith,
}
use matemat.Dataflash.{Fs, df_pages, none_ffff}
use matemat.Dataflash.Pages.{fs_used, free_page, fs_new_page}

-- From a page that is `d` pages before the last one taken, the search stops at a free page or has
-- found all pages on the way to be used.
data Search (fs : Fs) (page d r : ℕ) : Type 0 where
  free : r < df_pages → fs_used fs r ≡ false → r ≢ fs.last_free → Search fs page d r
  full :
      r ≡ fs.last_free
      → ((j : ℕ) → j < d → fs_used fs ((page + j) % df_pages) ≡ true)
      → Search fs page d r

widen :
    (fs : Fs) (page d r : ℕ)
    → page < df_pages
    → fs_used fs page ≡ true
    → Search fs ((page + 1) % df_pages) d r
    → Search fs page (suc d) r
widen fs page d r p u (free b f o) = Search.free b f o
widen fs page d r p u (full e all) = Search.full e λ j h.
    elim j as (λ j. j < suc d → fs_used fs ((page + j) % df_pages) ≡ true) [
      | zero ↦ λ h. (let z : (page + 0) % df_pages ≡ page = omega arith in rw z u)
      | suc i ↦ λ h.
          (let s : (page + suc i) % df_pages ≡ ((page + 1) % df_pages + i) % df_pages =
              omega arith in
            rw s (all i (omega arith)))
    ]
      h

free_page-Search :
    (n : ℕ) (fs : Fs) (page d : ℕ)
    → page < df_pages
    → d < n
    → d < df_pages
    → (page + d) % df_pages ≡ fs.last_free
    → Search fs page d (free_page n fs page)
unfolding free_page
free_page-Search zero fs page d p h s e = absurd (omega arith)
free_page-Search (suc n) fs page zero p h s e =
    let same : page ≡ fs.last_free = omega arith in
    let at : (page == fs.last_free) ≡ true = (==_iff page fs.last_free).1 same in
    let stop : Search fs page 0 page = Search.full same (λ j h. absurd (omega arith)) in
    elim (Bool-cases (fs_used fs page)) [
      | inl used ↦ rw (used, at) stop
      | inr unused ↦ rw unused stop
    ]
free_page-Search (suc n) fs page (suc d) p h s e =
    let other : (page == fs.last_free) ≡ false = ground arith in
    elim (Bool-cases (fs_used fs page)) [
      | inl used ↦
          let next = (page + 1) % df_pages in
          let ih =
            free_page-Search n fs next d (omega arith) (omega arith) (omega arith) (omega arith) in
          rw (used, other) (widen fs page d _ p used ih)
      | inr unused ↦ rw unused (Search.free p unused (ground arith))
    ]

-- What `fs_new_page` returns: a free page, which is remembered, or the mark for none.
pub data NewPage (fs : Fs) : Fs → ℕ → Type 0 where
  taken :
      (page : ℕ)
      → page < df_pages
      → fs_used fs page ≡ false
      → page ≢ fs.last_free
      → NewPage fs (record fs { last_free = page }) page
  none_left :
      ((page : ℕ) → page < df_pages → page ≢ fs.last_free → fs_used fs page ≡ true)
      → NewPage fs fs none_ffff

decide_page :
    (fs : Fs) (r : ℕ)
    → fs.last_free < df_pages
    → Search fs ((fs.last_free + 1) % df_pages) 4095 r
    → (p : Fs × ℕ)
    → p ≡ (if r == fs.last_free then (fs, none_ffff) else (record fs { last_free = r }, r))
    → NewPage fs p.0 p.1
decide_page fs r l (free b f o) p q =
    let other : (r == fs.last_free) ≡ false = ground arith in rw (q, other) (NewPage.taken r b f o)
decide_page fs r l (full e all) p q =
    let same : (r == fs.last_free) ≡ true = (==_iff r fs.last_free).1 e in
    rw (q, same)
      (NewPage.none_left λ page b o.
        let j = (page + 4095 - fs.last_free) % df_pages in
        let back : ((fs.last_free + 1) % df_pages + j) % df_pages ≡ page = omega arith in
        rw back at (all j (omega arith)))

-- When the last page taken is in the flash, the search ends for any marks: it returns a page that
-- is free and not the last one taken, and remembers it; or none, and then every page but the last
-- one taken is used.
pub fs_new_page-NewPage :
    (fs : Fs) → fs.last_free < df_pages → let (fs', page) = fs_new_page fs in NewPage fs fs' page
unfolding fs_new_page
fs_new_page-NewPage fs l =
    let begin = (fs.last_free + 1) % df_pages in
    let page = free_page df_pages fs begin in
    let s : Search fs begin 4095 page =
      free_page-Search df_pages fs begin 4095 (omega arith) (omega arith) (omega arith)
        (omega arith) in
    decide_page fs page l s (fs_new_page fs) refl
