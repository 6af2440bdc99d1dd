-- ===== src/Discovery/Distinct.antt =====
-- Lists of names without duplicates: sorted, they are known by their members.
use text.Mathlib.TextEquality.{eq_iff}
use rosbag2_dynamic_recorder.Base.{
  ◌≡◌, refl, sym, ap, ap₂, ◌∙◌, String, true, false, List, [], ◌∷◌, All, arith, str_eq, inl, inr,
  Bool-cases, bool_ext,
}
use rosbag2_dynamic_recorder.Base.Sort.{
  sorted_by, insert_by, IsSorted, any-insert_by, any-sorted_by,
}
use rosbag2_dynamic_recorder.Discovery.{str_le, contains}
use rosbag2_dynamic_recorder.Discovery.Order.{str_le-total, str_le-antisym}

abbrev pub IsDistinct : List String → Type 0
IsDistinct [] = Unit
IsDistinct (x ∷ xs) = (contains x xs ≡ false) × IsDistinct xs

pub contains-All :
    (P : String → Type 0) (t : String) (xs : List String) → All P xs → contains t xs ≡ true → P t
contains-All P t [] h k = ground arith
contains-All P t (x ∷ xs) h k = elim (Bool-cases (str_eq t x)) [
  | inl same ↦ rw ((eq_iff t x).0 same) h.0
  | inr other ↦ contains-All P t xs h.1 (ground arith)
]

str_eq_comm : (s t : String) → str_eq s t ≡ str_eq t s
str_eq_comm s t =
    bool_ext (str_eq s t) (str_eq t s) (λ h. (eq_iff t s).1 (sym ((eq_iff s t).0 h)))
      (λ h. (eq_iff s t).1 (sym ((eq_iff t s).0 h)))

str_eq_refl : (s : String) → str_eq s s ≡ true
str_eq_refl s = (eq_iff s s).1 refl

str_le_refl : (s : String) → str_le s s ≡ true
str_le_refl s = elim (Bool-cases (str_le s s)) [ inl h ↦ h | inr h ↦ str_le-total s s h ]

insert_by-IsDistinct :
    (x : String) (ys : List String)
    → contains x ys ≡ false
    → IsDistinct ys
    → IsDistinct (insert_by str_le x ys)
unfolding insert_by
insert_by-IsDistinct x [] h k = (refl, tt)
insert_by-IsDistinct x (y ∷ ys) h k =
    ground (arith, any-insert_by str_le (str_eq y) x ys, str_eq_comm x y, insert_by-IsDistinct x ys)

pub sorted_by-IsDistinct : (xs : List String) → IsDistinct xs → IsDistinct (sorted_by str_le xs)
unfolding sorted_by
sorted_by-IsDistinct [] h = tt
sorted_by-IsDistinct (x ∷ xs) h =
    insert_by-IsDistinct x (sorted_by str_le xs) (any-sorted_by str_le (str_eq x) xs ∙ h.0)
      (sorted_by-IsDistinct xs h.1)

-- The head of one list is not after the head of the other.
head_le :
    (x y : String) (ys : List String)
    → All (λ z. str_le y z ≡ true) ys
    → contains x (y ∷ ys) ≡ true
    → str_le y x ≡ true
head_le x y ys h k = elim (Bool-cases (str_eq x y)) [
  | inl same ↦ rw ((eq_iff x y).0 same) (str_le_refl y)
  | inr other ↦ contains-All (λ z. str_le y z ≡ true) x ys h (ground arith)
]

contains-tail :
    (t x : String) (xs ys : List String)
    → contains x xs ≡ false
    → contains x ys ≡ false
    → contains t (x ∷ xs) ≡ contains t (x ∷ ys)
    → contains t xs ≡ contains t ys
contains-tail t x xs ys h k same = elim (Bool-cases (str_eq t x)) [
  | inl at_head ↦ rw ((eq_iff t x).0 at_head) (h ∙ sym k)
  | inr other ↦ ground arith
]

pub sorted_names :
    (xs ys : List String)
    → IsSorted str_le xs
    → IsDistinct xs
    → IsSorted str_le ys
    → IsDistinct ys
    → ((t : String) → contains t xs ≡ contains t ys)
    → xs ≡ ys
sorted_names [] [] a b c d h = refl
sorted_names [] (y ∷ ys) a b c d h = ground (arith, h y, str_eq_refl y)
sorted_names (x ∷ xs) [] a b c d h = ground (arith, h x, str_eq_refl x)
sorted_names (x ∷ xs) (y ∷ ys) a b c d h =
    let same : x ≡ y =
      str_le-antisym x y (head_le y x xs a.0 (h y ∙ ground (arith, str_eq_refl y)))
        (head_le x y ys c.0 (sym (h x) ∙ ground (arith, str_eq_refl x))) in
    let rest : xs ≡ ys = sorted_names xs ys a.1 b.1 c.1 d.1 (λ t.
      contains-tail t x xs ys b.0 (ap (λ u. contains u ys) same ∙ d.0)
        (h t ∙ ap (λ u. contains t (u ∷ ys)) (sym same))) in
    ap₂ ◌∷◌ same rest
