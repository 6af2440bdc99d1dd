-- ===== src/Base/Members.antt =====
-- What lists hold after map and keep, and what both branches of a test have.
use text.Mathlib.TextEquality.{eq_iff}
use mathlib.Core.Path.{◌≡◌, refl, ap}
use mathlib.Core.Bool.{Bool, true, false, ◌&&◌, ◌||◌}
use mathlib.Core.List.{List, [], ◌∷◌, ◌++◌, map}
use Prim.Native.String.{String}
use native.Mathlib.Omega.{arith}
use rosbag2_dynamic_recorder.Base.Tests.{str_eq, if◌then◌else◌, Bool-cases}
use mathlib.Core.Logic.{inl, inr}
use rosbag2_dynamic_recorder.Base.Lists.{any, keep, All}

pub any-map :
    {A B : Type 0} (p : B → Bool) (f : A → B) (xs : List A)
    → any p (map f xs) ≡ any (λ x. p (f x)) xs
any-map p f [] = refl
any-map p f (x ∷ xs) = ap (◌||◌ (p (f x))) (any-map p f xs)

-- Of the topics that pass a test, one is there when it passes and was there.
pub contains-keep :
    (t : String) (test : String → Bool) (ts : List String)
    → any (str_eq t) (keep test ts) ≡ (any (str_eq t) ts && test t)
contains-keep t test [] = refl
contains-keep t test (u ∷ ts) =
    let same : str_eq t u ≡ true → test t ≡ test u = λ h. ap test ((eq_iff t u).0 h) in
    ground (arith, same, contains-keep t test ts)

pub All-map :
    {A B : Type 0} (P : B → Type 0) (f : A → B)
    → ((a : A) → P (f a))
    → (xs : List A) → All P (map f xs)
All-map P f h [] = tt
All-map P f h (x ∷ xs) = (h x, All-map P f h xs)

pub if_either :
    {A : Type 0} (P : A → Type 0) (test : Bool) (x y : A) → P x → P y → P (if test then x else y)
if_either P true x y h k = h
if_either P false x y h k = k

pub All-map_imp :
    {A B : Type 0} (P : A → Type 0) (Q : B → Type 0) (f : A → B)
    → ((a : A) → P a → Q (f a))
    → (xs : List A) → All P xs
    → All Q (map f xs)
All-map_imp P Q f g [] h = tt
All-map_imp P Q f g (x ∷ xs) h = (g x h.0, All-map_imp P Q f g xs h.1)

pub All-of_map :
    {A B : Type 0} (Q : B → Type 0) (f : A → B) (xs : List A)
    → All Q (map f xs)
    → All (λ a. Q (f a)) xs
All-of_map Q f [] h = tt
All-of_map Q f (x ∷ xs) h = (h.0, All-of_map Q f xs h.1)

pub All-and :
    {A : Type 0} (P Q : A → Type 0) (xs : List A) → All P xs → All Q xs → All (λ a. P a × Q a) xs
All-and P Q [] h k = tt
All-and P Q (x ∷ xs) h k = ((h.0, k.0), All-and P Q xs h.1 k.1)

pub All-keep :
    {A : Type 0} (P : A → Type 0) (test : A → Bool) (xs : List A) → All P xs → All P (keep test xs)
All-keep P test [] h = tt
All-keep P test (x ∷ xs) h =
    if_either (All P) (test x) (x ∷ keep test xs) (keep test xs) (h.0, All-keep P test xs h.1)
      (All-keep P test xs h.1)

pub keep-All :
    {A : Type 0} (test : A → Bool) (xs : List A) → All (λ x. test x ≡ true) (keep test xs)
keep-All test [] = tt
keep-All test (x ∷ xs) = elim (Bool-cases (test x)) [
  | inl passes ↦ rw passes (passes, keep-All test xs)
  | inr fails ↦ rw fails (keep-All test xs)
]

pub any-append :
    {A : Type 0} (p : A → Bool) (xs ys : List A) → any p (xs ++ ys) ≡ (any p xs || any p ys)
any-append p [] ys = refl
any-append p (x ∷ xs) ys = ground (arith, any-append p xs ys)
