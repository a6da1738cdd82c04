-- ===== src/Runtime/Safety/Growth.antt =====
-- Starting and spawning fibers in src/runtime/mod.rs keeps a runtime sound.
use native.Mathlib.Decide.{ℕ_discrete}
use mathlib.Core.Path.{subst}
use uringy.Common.{
  ℕ, suc, ◌<◌, ◌≡◌, refl, sym, ap, ◌∙◌, ◌≢◌, ◌⊎◌, inl, inr, Option, none, some, List, [], ◌∷◌, ◌++◌,
  Elem, Elem-append, arith, ◌==◌, if◌then◌else◌,
}
use uringy.Runtime.Slab.{Slab}
use uringy.Runtime.State.{unused, FiberState, Runtime, set_insert}
use uringy.Runtime.Fibers.Family.{IsOrdered, Ascends}
use uringy.Runtime.Safety.{Has, IsLinked, IsTree, IsSound}

set_insert-Ascends :
    (a low : ℕ) (xs : List ℕ) → low < a → Ascends low xs → Ascends low (set_insert a xs)
unfolding set_insert
set_insert-Ascends a low [] l v = (l, tt)
set_insert-Ascends a low (x ∷ xs) l (lx, v) = elim (ℕ_discrete a x) [
  | yes e ↦ ground arith
  | no ne ↦ ground (arith, set_insert-Ascends a x xs)
]

pub set_insert-IsOrdered : (a : ℕ) (xs : List ℕ) → IsOrdered xs → IsOrdered (set_insert a xs)
unfolding set_insert
set_insert-IsOrdered a [] v = tt
set_insert-IsOrdered a (x ∷ xs) v = elim (ℕ_discrete a x) [
  | yes e ↦ ground arith
  | no ne ↦ ground (arith, set_insert-Ascends a x xs)
]

module _ (S : Slab FiberState) where
  -- Fiber `k`, which was `f`, is `f'` when `child` has been put below fiber `p`.
  pub record Extends (p child k : ℕ) (f f' : FiberState) : Type 0 where
    pub parent : f'.parent ≡ f.parent
    pub join_handle : f'.join_handle ≡ f.join_handle
    pub more : (c : ℕ) → Elem c f.children → Elem c f'.children
    pub added : k ≡ p → Elem child f'.children
    pub from : (c : ℕ) → Elem c f'.children → Elem c f.children ⊎ ((k ≡ p) × (c ≡ child))
    pub order : IsOrdered f.children → IsOrdered f'.children

  -- `rt'` has a new fiber `child` below fiber `p`, and no other change to the tree.
  pub record Grown (rt rt' : Runtime S) (p child : ℕ) : Type 0 where
    pub new : FiberState
    pub fresh : S.get rt.fibers child ≡ none
    pub is_new : Has S rt' child new
    pub orphan : new.children ≡ []
    pub up : new.parent ≡ some p
    pub not_joined : new.join_handle ≡ unused
    pub kept :
        (k : ℕ) (f : FiberState)
        → Has S rt k f
        → (f' : FiberState) × Has S rt' k f' × Extends p child k f f'
    pub others : (k : ℕ) → S.get rt.fibers k ≡ none → k ≢ child → S.get rt'.fibers k ≡ none

  -- What a fiber was before, if it is not the new one.
  abbrev Old : Runtime S → ℕ → ℕ → ℕ → FiberState → Type 0
  Old rt p child k f' = (f : FiberState) × Has S rt k f × Extends p child k f f'

  Grown-back :
      {rt rt' : Runtime S} {p child : ℕ}
      → (w : Grown rt rt' p child) → (k : ℕ) (f' : FiberState) → Has S rt' k f'
      → ((k ≡ child) × (f' ≡ w.new)) ⊎ Old rt p child k f'
  Grown-back {rt} {rt'} {p} {child} w k f' h = elim (ℕ_discrete k child) [
    | yes e ↦
        let same : ◌≡◌ {A = Option FiberState} (some f') (some w.new) =
          sym h ∙ ap (S.get rt'.fibers) e ∙ w.is_new in
        inl (e, ground arith)
    | no ne ↦ inr (old ne (S.get rt.fibers k) refl)
  ]
    where
      old : k ≢ child → (o : Option FiberState) → S.get rt.fibers k ≡ o → Old rt p child k f'
      old ne none e = absurd (ground (arith, w.others k e ne))
      old ne (some f) e =
          let (f2, h2, x) = w.kept k f e in
          let same : f2 ≡ f' = ground (arith, h, h2) in (f, e, subst (Extends p child k f) same x)

  pub Grown-IsLinked :
      {rt rt' : Runtime S} {p child : ℕ}
      → Grown rt rt' p child
      → (k : ℕ) → IsLinked S rt k
      → IsLinked S rt' k
  Grown-IsLinked w k (g, h, how) =
      let (g', h', x) = w.kept k g h in
      (
        g',
        h',
        elim how [
          | inl e ↦ inl e
          | inr (q, f, up, there, m) ↦
              let (f', there', y) = w.kept q f there in
              inr (q, f', x.parent ∙ up, there', y.more k m)
        ],
      )

  pub Grown-IsLinked_child :
      {rt rt' : Runtime S} {p child : ℕ}
      → Grown rt rt' p child
      → IsLinked S rt p
      → IsLinked S rt' child
  Grown-IsLinked_child {rt} {rt'} {p} {child} w (f, there, how) =
      let (f', there', x) = w.kept p f there in
      (w.new, w.is_new, inr (p, f', w.up, there', x.added refl))

  -- The children of a fiber: they were its children before, or it is the parent of the new one.
  Grown-children :
      {rt rt' : Runtime S} {p child : ℕ}
      → Grown rt rt' p child
      → (k c : ℕ) (f' : FiberState) → Has S rt' k f'
      → Elem c f'.children
      → ((f : FiberState) × Has S rt k f × Elem c f.children) ⊎ ((k ≡ p) × (c ≡ child))
  Grown-children w k c f' h m = elim (Grown-back w k f' h) [
    | inl (e, is_new) ↦ absurd (subst (Elem c) (ap (λ x. x.children) is_new ∙ w.orphan) m)
    | inr (f, there, x) ↦ elim (x.from c m) [ inl old ↦ inl (f, there, old) | inr new ↦ inr new ]
  ]

  pub Grown-IsLinked_back :
      {rt rt' : Runtime S} {p child : ℕ}
      → Grown rt rt' p child
      → (k : ℕ) (g : FiberState) → Has S rt k g
      → IsLinked S rt' k
      → IsLinked S rt k
  Grown-IsLinked_back {rt} {rt'} {p} {child} w k g h (g', h', how) = elim how [
    | inl e ↦ (g, h, inl e)
    | inr (q, f', up, there', m) ↦ elim (Grown-children w q k f' there' m) [
      | inl (f, there, old) ↦ (g, h, inr (q, f, sym same ∙ up, there, old))
      | inr (e, e') ↦ absurd (ground (arith, h, w.fresh, e'))
    ]
  ]
    where
      same : g'.parent ≡ g.parent
      same =
          let (g2, h2, x) = w.kept k g h in
          let e : g2 ≡ g' = ground (arith, h2, h') in subst (λ y. y.parent ≡ g.parent) e x.parent

  pub Grown-IsTree :
      {rt rt' : Runtime S} {p child : ℕ}
      → Grown rt rt' p child
      → IsLinked S rt p
      → IsTree S rt
      → IsTree S rt'
  Grown-IsTree {rt} {rt'} {p} {child} w l v = record {
    rank = λ k. if k == child then 0 else suc (v.rank k);
    ranked = record {
      present = λ k c f' h m. elim (Grown-children w k c f' h m) [
        | inl (f, there, old) ↦
            let (g, gh) = v.ranked.present k c f there old in
            let (g', gh', x) = w.kept c g gh in (g', gh')
        | inr (e, e') ↦ (w.new, ap (S.get rt'.fibers) e' ∙ w.is_new)
      ];
      falls = λ k c f' h m. elim (Grown-children w k c f' h m) [
        | inl (f, there, old) ↦
            let (g, gh) = v.ranked.present k c f there old in
            let lower : v.rank c < v.rank k = v.ranked.falls k c f there old in
            ground (arith, lower, w.fresh, there, gh)
        | inr (e, e') ↦ let (f, there, how) = l in ground (arith, w.fresh, there)
      ];
    };
    parent_of = λ q c f' g' h m hg. elim (Grown-children w q c f' h m) [
      | inl (f, there, old) ↦ elim (Grown-back w c g' hg) [
        | inl (e, is_new) ↦
            let (g, gh) = v.ranked.present q c f there old in
            absurd (ground (arith, gh, w.fresh, e))
        | inr (g, gh, x) ↦ x.parent ∙ v.parent_of q c f g there old gh
      ]
      | inr (e, e') ↦ elim (Grown-back w c g' hg) [
        | inl (e2, is_new) ↦ ap (λ x. x.parent) is_new ∙ w.up ∙ ap some (sym e)
        | inr (g, gh, x) ↦ absurd (ground (arith, gh, w.fresh, e'))
      ]
    ];
    ordered = λ q f' h. elim (Grown-back w q f' h) [
      | inl (e, is_new) ↦ subst IsOrdered (sym (ap (λ x. x.children) is_new ∙ w.orphan)) tt
      | inr (f, there, x) ↦ x.order (v.ordered q f there)
    ];
    parents_linked = λ q c f' h m. elim (Grown-children w q c f' h m) [
      | inl (f, there, old) ↦ Grown-IsLinked w q (v.parents_linked q c f there old)
      | inr (e, e') ↦ subst (IsLinked S rt') (sym e) (Grown-IsLinked w p l)
    ];
    root = let (f, h, top) = v.root in let (f', h', x) = w.kept 0 f h in (f', h', x.parent ∙ top);
  }

  pub Grown-IsSound :
      {rt rt' : Runtime S} {p child : ℕ}
      → Grown rt rt' p child
      → IsLinked S rt p
      → rt'.ready_fibers ≡ rt.ready_fibers ++ (child ∷ [])
      → IsSound S rt
      → IsSound S rt'
  Grown-IsSound {rt} {rt'} {p} {child} w l queue v = record {
    tree = Grown-IsTree w l v.tree;
    ready_linked = λ k m.
        elim (Elem-append k rt.ready_fibers (child ∷ []) (subst (Elem k) queue m)) [
          | inl old ↦ Grown-IsLinked w k (v.ready_linked k old)
          | inr (inl e) ↦ subst (IsLinked S rt') (sym e) (Grown-IsLinked_child w l)
          | inr (inr m') ↦ absurd m'
        ];
    joiner_linked = λ k j f' h e. elim (Grown-back w k f' h) [
      | inl (same, is_new) ↦ absurd (ground (arith, e, w.not_joined, is_new))
      | inr (f, there, x) ↦ Grown-IsLinked w j (v.joiner_linked k j f there (sym x.join_handle ∙ e))
    ];
    unjoined = λ k f' lk h e. elim (Grown-back w k f' h) [
      | inl (same, is_new) ↦ absurd (ground (arith, e, w.not_joined, is_new))
      | inr (f, there, x) ↦
          v.unjoined k f (Grown-IsLinked_back w k f there lk) there (sym x.join_handle ∙ e)
    ];
  }
