-- ===== src/Index/Unary.antt =====
-- A file format that writes each number as a row of marks, with which the theorems on the file of
-- the R-tree (src/osgGIS/RTree.cpp.inline) are applied.
use osggis.Base.{
  ℕ, zero, suc, ◌+◌, ◌*◌, ◌/◌, ◌≡◌, refl, ap, ◌∙◌, Bool, true, false, Option, none, some, [], ◌∷◌,
  ◌++◌, ◌==◌, ltb, leb, if◌then◌else◌, ◌>>=◌, Bytes, arith,
}
use osggis.Geo.Point.{new_point}
use osggis.Geo.Extent.{Extent, new_extent, cornered}
use osggis.Geo.Grid.{grid}
use osggis.Index.OfExtents.{Areas, extent_boxes}
use osggis.Index.File.{Format, Disk, blank}
use osggis.Index.Lines.{IsDelimited, IsOneLine, IsFormat, IsDisk, stored_extent}
use osggis.Index.Rounded.{IsRounding}

abbrev mark : ℕ
mark = b'|'

abbrev row : ℕ → Bytes
row zero = []
row (suc n) = mark ∷ row n

-- The marks up to another byte, added to a number.
abbrev count_marks : Bytes → ℕ → ℕ × Bytes
count_marks [] n = (n, [])
count_marks (c ∷ s) n = let more = count_marks s (suc n) in if c == mark then more else (n, c ∷ s)

abbrev first_row : Bytes → Option (ℕ × Bytes)
first_row [] = none
first_row (c ∷ s) =
    let later = first_row s in
    if c == blank then later else (if c == mark then some (count_marks s 0) else none)

count_marks-row :
    (m n : ℕ) (rest : Bytes) → IsDelimited rest → count_marks (row m ++ rest) n ≡ (n + m, rest)
count_marks-row zero n [] h = ap (λ z. (z, [])) (omega arith)
count_marks-row zero n (c ∷ s) h =
    let t : (c == mark) ≡ false = ground arith in rw t (ap (λ z. (z, c ∷ s)) (omega arith))
count_marks-row (suc m) n rest h =
    count_marks-row m (suc n) rest h ∙ ap (λ z. (z, rest)) (omega arith)

row-IsOneLine : (n : ℕ) → IsOneLine (row n)
row-IsOneLine zero = tt
row-IsOneLine (suc n) = ((λ h. absurd (omega arith)), row-IsOneLine n)

module _ {A : Type 0} (to : A → ℕ) (from : ℕ → A) where
  abbrev unary : Format A
  unary = record {
    print = λ x. row (suc (to x));
    extract = λ s. first_row s >>= λ r. some (from r.0, r.1);
  }

  unary-IsFormat : (stored : A → A) → ((x : A) → from (to x) ≡ stored x) → IsFormat unary stored
  unary-IsFormat stored back = record {
    extract-print = λ x rest h.
        let z : 0 + to x ≡ to x = omega arith in
        rw (count_marks-row (to x) 0 rest h, z, back x) refl;
    extract_blank = λ s. refl;
    one_line = λ x. row-IsOneLine (suc (to x));
  }

-- Numbers are kept up to a multiple of two.
abbrev pub round_even : ℕ → ℕ
round_even n = 2 * (n / 2)

even : (a b : ℕ) → leb a b ≡ true → leb (round_even a) (round_even b) ≡ true
even a b h = ground arith

abbrev from_corners : ℕ → ℕ → ℕ → ℕ → Extent grid
from_corners x0 y0 x1 y1 = cornered grid (record (new_extent grid) {
  sw = new_point grid x0 y0 (some 1);
  ne = new_point grid x1 y1 (some 1);
})

flag-back : (f : Bool) → ltb 0 (if f then 1 else 0) ≡ f
flag-back true = refl
flag-back false = refl

module _ (areas : Areas grid) where
  abbrev pub unary_disk : Disk (extent_boxes grid 1 areas) ℕ
  unary_disk = record {
    Number = ℕ;
    x_min = λ e. e.sw.x;
    y_min = λ e. e.sw.y;
    x_max = λ e. e.ne.x;
    y_max = λ e. e.ne.y;
    new_extent = from_corners;
    numbers = unary (λ n. n / 2) (λ n. 2 * n);
    ints = unary (λ n. n) (λ n. n);
    flags = unary (λ f. if f then 1 else 0) (λ n. ltb 0 n);
    oids = unary (λ n. n) (λ n. n);
  }

  pub unary_disk-IsDisk : IsDisk unary_disk round_even
  unary_disk-IsDisk = record {
    numbers_law = unary-IsFormat (λ n. n / 2) (λ n. 2 * n) round_even (λ n. refl);
    ints_law = unary-IsFormat (λ n. n) (λ n. n) (λ n. n) (λ n. refl);
    flags_law = unary-IsFormat (λ f. if f then 1 else 0) (λ n. ltb 0 n) (λ f. f) flag-back;
    oids_law = unary-IsFormat (λ n. n) (λ n. n) (λ n. n) (λ n. refl);
  }

  -- Rounding down to a multiple of two keeps the order of corners, and containment.
  pub unary_disk-IsRounding :
      IsRounding (extent_boxes grid 1 areas) (stored_extent unary_disk round_even unary_disk-IsDisk)
  unary_disk-IsRounding = record {
    round-IsBox = λ x h.
        ((refl, refl, refl, refl, even x.sw.x x.ne.x h.0.4, even x.sw.y x.ne.y h.0.5), refl, refl);
    round-Within = λ x y h i w. (
      even y.sw.x x.sw.x w.0,
      even y.sw.y x.sw.y w.1,
      even x.ne.x y.ne.x w.2,
      even x.ne.y y.ne.y w.3,
    );
  }
