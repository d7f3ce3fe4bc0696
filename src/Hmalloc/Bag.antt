-- ===== src/Hmalloc/Bag.antt =====
-- The addresses of blocks, up to order.
use mathlib.Core.Quot
use mathlib.Core.Quot.{Quot, Quot-set}
use hmsdk.Base.{ℕ, ◌+◌, ◌≡◌, refl, ap, List, [], ◌∷◌, ◌==◌, if◌then◌else◌, arith}

-- 1 where the two addresses are the same.
abbrev pub one : ℕ → ℕ → ℕ
one p a = if p == a then 1 else 0

abbrev pub occurrences : List ℕ → ℕ → ℕ
occurrences [] a = 0
occurrences (p ∷ ps) a = one p a + occurrences ps a

abbrev pub Bag : Type 0
Bag = Quot (λ ps qs. occurrences ps ≡ occurrences qs)

abbrev pub bag_of : List ℕ → Bag
bag_of ps = Quot.mk ps

-- How many times an address is in a bag.
pub times : Bag → ℕ → ℕ
times = Quot.lift (hlevel) occurrences (λ ps qs e. e)

unfoldable pub add : ℕ → Bag → Bag
add p = Quot.lift Quot-set (λ ps. bag_of (p ∷ ps)) (λ ps qs e. Quot.sound (λ i a. one p a + e i a))

same_bag : (ps : List ℕ) (y : Bag) → occurrences ps ≡ times y → bag_of ps ≡ y
unfolding times
same_bag ps = Quot.ind (λ y. hlevel Quot-set) (λ qs e. Quot.sound e)

pub Bag-ext : (x y : Bag) → ((a : ℕ) → times x a ≡ times y a) → x ≡ y
unfolding times
Bag-ext x y =
    Quot.ind {β = λ b. ((a : ℕ) → times b a ≡ times y a) → b ≡ y} (λ b. hlevel Quot-set)
      (λ ps e. same_bag ps y (λ i a. e a i)) x

pub times-add : (p : ℕ) (x : Bag) (a : ℕ) → times (add p x) a ≡ one p a + times x a
unfolding times add
times-add p x a =
    Quot.ind {β = λ b. times (add p b) a ≡ one p a + times b a} (λ b. hlevel) (λ ps. refl) x

pub times-bag_of : (ps : List ℕ) (a : ℕ) → times (bag_of ps) a ≡ occurrences ps a
unfolding times
times-bag_of ps a = refl

-- The addresses of a list before those of a bag.
before : List ℕ → Bag → Bag
before [] y = y
before (p ∷ ps) y = add p (before ps y)

times-before :
    (ps : List ℕ) (y : Bag) (a : ℕ) → times (before ps y) a ≡ occurrences ps a + times y a
unfolding before
times-before [] y a = omega arith
times-before (p ∷ ps) y a =
    let first = times-add p (before ps y) a in
    let later = times-before ps y a in omega (arith, first, later)

-- All addresses of two bags.
pub join : Bag → Bag → Bag
join x y =
    Quot.lift Quot-set (λ ps. before ps y)
      (λ ps qs e. Bag-ext (before ps y) (before qs y) (λ a.
        let left = times-before ps y a in
        let right = times-before qs y a in
        let same : occurrences ps a ≡ occurrences qs a = ap (λ (f : ℕ → ℕ). f a) e in
        omega (arith, left, right, same)))
      x

times-join : (x y : Bag) (a : ℕ) → times (join x y) a ≡ times x a + times y a
unfolding join times
times-join x y a =
    Quot.ind {β = λ b. times (join b y) a ≡ times b a + times y a} (λ b. hlevel)
      (λ ps. times-before ps y a) x

pub join-add : (p : ℕ) (x y : Bag) → join (add p x) y ≡ add p (join x y)
join-add p x y = Bag-ext (join (add p x) y) (add p (join x y)) (λ a.
    let left = times-join (add p x) y a in
    let first = times-add p x a in
    let right = times-add p (join x y) a in
    let rest = times-join x y a in omega (arith, left, first, right, rest))

pub add_comm : (p q : ℕ) (x : Bag) → add p (add q x) ≡ add q (add p x)
add_comm p q x = Bag-ext (add p (add q x)) (add q (add p x)) (λ a.
    let left = times-add p (add q x) a in
    let first = times-add q x a in
    let right = times-add q (add p x) a in
    let rest = times-add p x a in omega (arith, left, first, right, rest))

pub join-empty : (y : Bag) → join (bag_of []) y ≡ y
unfolding join before
join-empty y = refl
