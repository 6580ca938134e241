-- ===== src/Apps/Scroller.antt =====
-- base/apps/scroller.c: the text that runs over the display. The variables are those of the file; the text
-- and the handle of the display are parameters.
use arcos_os.Prelude.{
  ℕ, zero, suc, ◌+◌, ◌-◌, ◌%◌, ◌≤◌, ◌<◌, ◌≡◌, refl, inl, inr, ◌==◌, if◌then◌else◌, List, [], ◌∷◌,
  ◌++◌, arith, Bool-cases,
}
use arcos_os.Types.{Ptr, ulong_mod}

pub record Scroller : Type 0 where
  pub pek : Ptr
  pub length : ℕ
  pub more_length : ℕ
  -- The calls of IoWriteFile, with the buffer and its size.
  pub writes : List (Ptr × ℕ)

-- scrollerInit, where `n` is what RtlStringLength returns.
unfoldable pub scroller_init : Ptr → ℕ → Scroller
scroller_init text n = record { pek = text; length = n; more_length = n; writes = [] }

-- scrollText
unfoldable pub scroll_text : Ptr → Scroller → Scroller
scroll_text text s =
    let shown : Scroller = record s {
      pek = (s.pek + 1) % ulong_mod;
      length = (s.length + ulong_mod - 1) % ulong_mod;
      writes = s.writes ++ (s.pek, s.length) ∷ [];
    } in
    if shown.length == 5 then record shown { length = shown.more_length; pek = text } else shown

unfoldable pub scroll_times : ℕ → Ptr → Scroller → Scroller
scroll_times zero text s = s
scroll_times (suc n) text s = scroll_times n text (scroll_text text s)

-- What is written begins in the text and ends where the text ends.
abbrev pub AllInside : Ptr → ℕ → List (Ptr × ℕ) → Type 0
AllInside text n [] = Unit {0}
AllInside text n ((p, size) ∷ rest) =
    (text ≤ p) × (5 < size) × (p + size ≡ text + n) × AllInside text n rest

pub record IsScrolling (text : Ptr) (n : ℕ) (s : Scroller) : Type 0 where
  pub from : text ≤ s.pek
  pub ends : s.pek + s.length ≡ text + n
  pub long : 5 < s.length
  pub whole : s.more_length ≡ n
  pub inside : AllInside text n s.writes

AllInside-end :
    (text : Ptr) (n : ℕ) (ws : List (Ptr × ℕ)) (p : Ptr) (size : ℕ)
    → AllInside text n ws
    → text ≤ p
    → 5 < size
    → p + size ≡ text + n
    → AllInside text n (ws ++ (p, size) ∷ [])
AllInside-end text n [] p size all a b c = (a, b, c, tt)
AllInside-end text n ((q, r) ∷ ws) p size all a b c =
    (all.0, all.1, all.2, AllInside-end text n ws p size all.3 a b c)

module _ (text : Ptr) (n : ℕ) (fits : text + n < ulong_mod) (long_text : 5 < n) where
  scroll_text-IsScrolling :
      (s : Scroller) → IsScrolling text n s → IsScrolling text n (scroll_text text s)
  unfolding scroll_text
  scroll_text-IsScrolling s h =
      let all = AllInside-end text n s.writes s.pek s.length h.inside h.from h.long h.ends in
      elim (Bool-cases ((s.length + ulong_mod - 1) % ulong_mod == 5)) [
        | inl again ↦ rw again (record {
          from = omega arith;
          ends = omega (arith, h.whole);
          long = omega (arith, h.whole);
          whole = h.whole;
          inside = all;
        })
        | inr more ↦ rw more (record {
          from = omega (arith, h.from, h.ends, h.long);
          ends = omega (arith, h.from, h.ends, h.long);
          long = ground (arith, h.from, h.ends, h.long);
          whole = h.whole;
          inside = all;
        })
      ]

  scroll_times-IsScrolling :
      (times : ℕ) (s : Scroller)
      → IsScrolling text n s
      → IsScrolling text n (scroll_times times text s)
  unfolding scroll_times
  scroll_times-IsScrolling zero s h = h
  scroll_times-IsScrolling (suc times) s h =
      scroll_times-IsScrolling times (scroll_text text s) (scroll_text-IsScrolling s h)

  -- However often scrollText is called behind scrollerInit, on a text of more than five characters that
  -- does not wrap around the memory, everything that it writes lies in the text, ends with it, and has
  -- at least six characters.
  scroll_times-inside :
      (times : ℕ) → AllInside text n (scroll_times times text (scroller_init text n)).writes
  unfolding scroller_init
  scroll_times-inside times =
      (scroll_times-IsScrolling times (scroller_init text n) (record {
        from = omega arith;
        ends = refl;
        long = long_text;
        whole = refl;
        inside = tt;
      })).inside
