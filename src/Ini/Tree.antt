-- ===== src/Ini/Tree.antt =====
-- Parser::parse: the levels that it makes form a tree.
use mathlib.Core.Path.{fun_ext}
use batyr.Prelude.{
  ℕ, zero, suc, ◌+◌, ◌-◌, ◌<◌, ◌≤◌, ◌≡◌, refl, [], Option, none, some, Text, ◌==◌, ==_iff,
  if◌then◌else◌, All, All-mono, Bool-cases, ◌⊎◌, inl, inr, arith,
}
use batyr.Maps.{Map, insert, All-insert}
use batyr.Ini.{Level, Store, write, Parser, top, climb, section_parent, section_level, set_parent}

-- A level is the top or hangs below its parent, one deeper.
abbrev pub IsLinked : ℕ → (ℕ → Option ℕ) → (ℕ → ℕ) → ℕ → Type 0
IsLinked next parent depth a =
    ((parent a ≡ none) × (depth a ≡ 0))
    ⊎ ((q : ℕ) × (q < next) × (parent a ≡ some q) × (depth a ≡ suc (depth q)))

pub record IsTree (next : ℕ) (parent : ℕ → Option ℕ) (depth : ℕ → ℕ) (sections : ℕ → Map ℕ)
    : Type 0 where
  pub root : (parent top ≡ none) × (depth top ≡ 0)
  pub linked : (a : ℕ) → a < next → IsLinked next parent depth a
  pub children : (a : ℕ) → a < next → All (λ e. (e.1 < next) × (parent e.1 ≡ some a)) (sections a)

abbrev pub Tree : Store → Type 0
Tree s =
    IsTree s.next (λ a. (s.level a).parent) (λ a. (s.level a).depth) (λ a. (s.level a).sections)

-- The tree, and the level that the parser is at is in it.
pub record IsParser (p : Parser) : Type 0 where
  pub tree : Tree p.store
  pub inside : p.current < p.store.next

-- Writing a level that differs in its values, or in the order of things, keeps the tree.
write_shape :
    (a : ℕ) (l : Level) (f : ℕ → Level)
    → l.parent ≡ (f a).parent
    → l.depth ≡ (f a).depth
    → l.sections ≡ (f a).sections
    → (b : ℕ)
    → ((write a l f b).parent ≡ (f b).parent)
      × ((write a l f b).depth ≡ (f b).depth)
      × ((write a l f b).sections ≡ (f b).sections)
unfolding write
write_shape a l f ep ed es b = elim (Bool-cases (b == a)) [
  | inl same ↦ rw (same, (==_iff b a).0 same) (ep, ed, es)
  | inr other ↦ rw other (refl, refl, refl)
]

pub Tree-write :
    (next a : ℕ) (l : Level) (f : ℕ → Level)
    → l.parent ≡ (f a).parent
    → l.depth ≡ (f a).depth
    → l.sections ≡ (f a).sections
    → Tree (record { next = next; level = f })
    → Tree (record { next = next; level = write a l f })
Tree-write next a l f ep ed es tree =
    let shape = write_shape a l f ep ed es in
    rw (fun_ext (λ b. (shape b).0), fun_ext (λ b. (shape b).1), fun_ext (λ b. (shape b).2)) tree

-- The walk up from a level ends at one that is as much higher.
climb_lem :
    (next : ℕ) (f : ℕ → Level)
    → Tree (record { next = next; level = f })
    → (n a : ℕ) → a < next
    → n ≤ (f a).depth
    → (q : ℕ) × (climb f n (some a) ≡ some q) × (q < next) × ((f q).depth + n ≡ (f a).depth)
unfolding climb
climb_lem next f tree zero a inside high = (a, refl, inside, omega arith)
climb_lem next f tree (suc n) a inside high = elim (tree.linked a inside) [
  | inl (none_, zero_) ↦ absurd (omega (arith, zero_))
  | inr (q, below, up, deeper) ↦
      let (r, found, in_r, depth) = climb_lem next f tree n q below (omega (arith, deeper)) in
      (r, rw up found, in_r, omega (arith, deeper, depth))
]

-- The parent that a section marker is given is one level higher than the section.
pub section_parent_lem :
    (depth : ℕ) (p : Parser)
    → IsParser p
    → 1 ≤ depth
    → depth ≤ (p.store.level p.current).depth + 1
    → (q : ℕ) × (section_parent depth p ≡ some q)
      × (q < p.store.next)
      × (suc (p.store.level q).depth ≡ depth)
unfolding section_parent climb
section_parent_lem depth p ok low high =
    elim (Bool-cases ((p.store.level p.current).depth == depth - 1)) [
      | inl below ↦
          let at : (p.store.level p.current).depth ≡ depth - 1 = (==_iff _ _).0 below in
          (p.current, rw below refl, ok.inside, omega (arith, at))
      | inr other ↦
          let apart : ((p.store.level p.current).depth ≡ depth - 1) → ⊥ =
            λ e. cc (other, (==_iff _ _).1 e) in
          let n = (p.store.level p.current).depth - depth in
          let (q, found, inside, deep) =
            climb_lem p.store.next p.store.level ok.tree (suc n) p.current ok.inside
              (omega (arith, apart)) in
          (q, rw other found, inside, omega (arith, deep, apart))
    ]

-- A new section: its parent has it, and it is one level deeper.
unfoldable pub grown : ℕ → ℕ → Text → ℕ → (ℕ → Level) → ℕ → Level
unfolding section_level
grown next parent name depth f =
    let s = (section_level name parent none (record { next = next; level = f })).1 in
    write next (set_parent depth parent (s.level next).parent (s.level next)) s.level

module _ (next parent : ℕ) (name : Text) (depth : ℕ) (f : ℕ → Level) (inside : parent < next) where
  grown-shape :
      (b : ℕ)
      → let g = grown next parent name depth f b in
        (g.parent ≡ (if b == next then some parent else (f b).parent))
        × (g.depth ≡ (if b == next then depth else (f b).depth))
        × (g.sections ≡ (
            if b == next
            then []
            else if b == parent
            then insert name next (f b).sections
            else (f b).sections))
  unfolding grown section_level write
  grown-shape b = elim (Bool-cases (b == next)) [
    | inl new ↦ (ground (arith, new), ground (arith, new), ground (arith, new))
    | inr old ↦ elim (Bool-cases (b == parent)) [
      | inl here ↦ rw (old, here, (==_iff b parent).0 here) (refl, refl, refl)
      | inr other ↦ rw (old, other) (refl, refl, refl)
    ]
  ]

-- The same for the three functions by themselves.
module _ (next parent : ℕ) (name : Text) (depth : ℕ) (ps : ℕ → Option ℕ) (ds : ℕ → ℕ)
    (ss : ℕ → Map ℕ) where
  abbrev ps_new : ℕ → Option ℕ
  ps_new b = if b == next then some parent else ps b

  abbrev ds_new : ℕ → ℕ
  ds_new b = if b == next then depth else ds b

  abbrev ss_new : ℕ → Map ℕ
  ss_new b = if b == next then [] else if b == parent then insert name next (ss b) else ss b

  IsLinked-new :
      parent < next
      → suc (ds parent) ≡ depth
      → IsTree next ps ds ss
      → (a : ℕ) → a < suc next
      → IsLinked (suc next) ps_new ds_new a
  IsLinked-new inside deep tree a below = elim (Bool-cases (a == next)) [
    | inl new ↦ inr (parent, omega (arith, inside), rw new refl, ground (arith, new, deep, inside))
    | inr old ↦ elim (tree.linked a (ground (arith, old, below))) [
      | inl (orphan, flat) ↦ inl (rw old orphan, rw old flat)
      | inr (q, known, up, deeper) ↦
          inr (q, omega (arith, known), rw old up, ground (arith, old, deeper, known))
    ]
  ]

  child_kept :
      (a : ℕ) (e : Text × ℕ)
      → (e.1 < next) × (ps e.1 ≡ some a)
      → (e.1 < suc next) × (ps_new e.1 ≡ some a)
  child_kept a e h = (omega (arith, h.0), ground (arith, h.0, h.1))

  children_new :
      parent < next
      → IsTree next ps ds ss
      → (a : ℕ) → a < suc next
      → All (λ e. (e.1 < suc next) × (ps_new e.1 ≡ some a)) (ss_new a)
  children_new inside tree a below = elim (Bool-cases (a == next)) [
    | inl new ↦ rw new tt
    | inr old ↦
        let P = λ (e : Text × ℕ). (e.1 < suc next) × (ps_new e.1 ≡ some a) in
        let kept : All P (ss a) =
          All-mono (λ e. (e.1 < next) × (ps e.1 ≡ some a)) P (ss a) (child_kept a)
            (tree.children a (ground (arith, old, below))) in
        elim (Bool-cases (a == parent)) [
          | inl here ↦
              rw (old, here)
                (All-insert P name next (ss a) kept (omega arith, ground (arith, here)))
          | inr other ↦ rw (old, other) kept
        ]
  ]

  IsTree-new :
      parent < next
      → suc (ds parent) ≡ depth
      → IsTree next ps ds ss
      → IsTree (suc next) ps_new ds_new ss_new
  IsTree-new inside deep tree = record {
    root = (ground (arith, tree.root.0, inside), ground (arith, tree.root.1, inside));
    linked = IsLinked-new inside deep tree;
    children = children_new inside tree;
  }

pub Tree-grown :
    (next parent : ℕ) (name : Text) (depth : ℕ) (f : ℕ → Level)
    → parent < next
    → suc (f parent).depth ≡ depth
    → Tree (record { next = next; level = f })
    → Tree (record { next = suc next; level = grown next parent name depth f })
Tree-grown next parent name depth f inside deep tree =
    let shape = grown-shape next parent name depth f inside in
    rw (fun_ext (λ b. (shape b).0), fun_ext (λ b. (shape b).1), fun_ext (λ b. (shape b).2))
      (IsTree-new next parent name depth _ _ _ inside deep tree)
