-- ===== src/Runtime/Safety/Leaving.antt =====
-- A fiber of src/runtime/mod.rs that has finished leaves its parent: the runtime stays sound.
use native.Mathlib.Decide.{ℕ_discrete}
use mathlib.Core.Path.{subst}
use uringy.Common.{ℕ, ◌≡◌, sym, ap, ◌∙◌, ◌≢◌, inl, inr, none, some, [], Elem, arith, Option-cases}
use uringy.Runtime.Slab.{Slab}
use uringy.Runtime.State.{waiting, FiberState, Runtime}
use uringy.Runtime.Fibers.Family.{IsOrdered}
use uringy.Runtime.Safety.{Has, IsLinked, IsTree, IsSound}

module _ (S : Slab FiberState) where
  -- Fiber `f` without the child `r`.
  pub record Loses (r : ℕ) (f f' : FiberState) : Type 0 where
    pub parent : f'.parent ≡ f.parent
    pub join_handle : f'.join_handle ≡ f.join_handle
    pub stays : (c : ℕ) → Elem c f.children → c ≢ r → Elem c f'.children
    pub from : (c : ℕ) → Elem c f'.children → Elem c f.children × (c ≢ r)
    pub order : IsOrdered f.children → IsOrdered f'.children

  -- A fiber that does not have the child.
  pub Loses-none :
      (r : ℕ) (g g1 : FiberState)
      → (Elem r g.children → ⊥)
      → g1.parent ≡ g.parent
      → g1.children ≡ g.children
      → g1.join_handle ≡ g.join_handle
      → Loses r g g1
  Loses-none r g g1 never pa ch jo = record {
    parent = pa;
    join_handle = jo;
    stays = λ c m ne. subst (Elem c) (sym ch) m;
    from = λ c m.
        let m' = subst (Elem c) ch m in (m', λ e. never (subst (λ i. Elem i g.children) e m'));
    order = λ o. subst IsOrdered (sym ch) o;
  }

  -- Fiber `r`, which has no children, which no fiber waits for and which is not in the ready queue,
  -- has been taken off the tree, and perhaps out of the slab.
  pub record Left (rt rt' : Runtime S) (r : ℕ) : Type 0 where
    pub not_root : r ≢ 0
    pub childless : (f : FiberState) (c : ℕ) → Has S rt r f → Elem c f.children → ⊥
    pub unawaited :
        (k : ℕ) (f : FiberState) → Has S rt k f → k ≢ r → f.join_handle ≢ waiting (some r)
    pub kept :
        (k : ℕ) (f : FiberState)
        → k ≢ r
        → Has S rt k f
        → (f' : FiberState) × Has S rt' k f' × Loses r f f'
    pub absent : (k : ℕ) → k ≢ r → S.get rt.fibers k ≡ none → S.get rt'.fibers k ≡ none
    pub gone :
        (f' : FiberState)
        → Has S rt' r f'
        → (f'.children ≡ []) × ((j : ℕ) → f'.join_handle ≢ waiting (some j))
    pub ready : (k : ℕ) → Elem k rt'.ready_fibers → IsLinked S rt k × (k ≢ r)

  Left-back :
      {rt rt' : Runtime S} {r : ℕ}
      → Left rt rt' r
      → (k : ℕ) (f' : FiberState) → k ≢ r
      → Has S rt' k f'
      → (f : FiberState) × Has S rt k f × Loses r f f'
  Left-back {rt} {rt'} {r} w k f' ne h = elim (Option-cases (S.get rt.fibers k)) [
    | inl away ↦ absurd (ground (arith, w.absent k ne away))
    | inr (f, there) ↦
        let (f2, h2, x) = w.kept k f ne there in
        let same : f2 ≡ f' = ground (arith, h, h2) in (f, there, subst (Loses r f) same x)
  ]

  -- A fiber with a child is another one, and the child is too.
  Left-children :
      {rt rt' : Runtime S} {r : ℕ}
      → Left rt rt' r
      → (k c : ℕ) (f' : FiberState) → Has S rt' k f'
      → Elem c f'.children
      → (k ≢ r) × (c ≢ r) × ((f : FiberState) × Has S rt k f × Elem c f.children × Loses r f f')
  Left-children {rt} {rt'} {r} w k c f' h m = elim (ℕ_discrete k r) [
    | yes e ↦
        let (none_left, joined) = w.gone f' (ap (S.get rt'.fibers) (sym e) ∙ h) in
        absurd (subst (Elem c) none_left m)
    | no ne ↦
        let (f, there, x) = Left-back w k f' ne h in
        let (old, other) = x.from c m in (ne, other, (f, there, old, x))
  ]

  pub Left-IsLinked :
      {rt rt' : Runtime S} {r : ℕ}
      → Left rt rt' r
      → (k : ℕ) → k ≢ r
      → IsLinked S rt k
      → IsLinked S rt' k
  Left-IsLinked {rt} {rt'} {r} w k ne (g, h, how) =
      let (g', h', x) = w.kept k g ne h in
      (
        g',
        h',
        elim how [
          | inl e ↦ inl e
          | inr (q, f, up, there, m) ↦
              let other : q ≢ r = λ e. w.childless f k (ap (S.get rt.fibers) (sym e) ∙ there) m in
              let (f', there', y) = w.kept q f other there in
              inr (q, f', x.parent ∙ up, there', y.stays k m ne)
        ],
      )

  Left-IsLinked_back :
      {rt rt' : Runtime S} {r : ℕ}
      → Left rt rt' r
      → (k : ℕ) → IsLinked S rt' k
      → (k ≢ r) × IsLinked S rt k
  Left-IsLinked_back {rt} {rt'} {r} w k (g', h', how) = elim how [
    | inl e ↦
        let ne : k ≢ r = λ same. w.not_root (sym same ∙ e) in
        let (g, h, x) = Left-back w k g' ne h' in (ne, (g, h, inl e))
    | inr (q, f', up, there', m) ↦
        let (other, ne, (f, there, old, y)) = Left-children w q k f' there' m in
        let (g, h, x) = Left-back w k g' ne h' in
        (ne, (g, h, inr (q, f, sym x.parent ∙ up, there, old)))
  ]

  Left-IsTree : {rt rt' : Runtime S} {r : ℕ} → Left rt rt' r → IsTree S rt → IsTree S rt'
  Left-IsTree {rt} {rt'} {r} w v = record {
    rank = v.rank;
    ranked = record {
      present = λ k c f' h m.
          let (ne, other, (f, there, old, x)) = Left-children w k c f' h m in
          let (g, gh) = v.ranked.present k c f there old in
          let (g', gh', y) = w.kept c g other gh in (g', gh');
      falls = λ k c f' h m.
          let (ne, other, (f, there, old, x)) = Left-children w k c f' h m in
          v.ranked.falls k c f there old;
    };
    parent_of = λ p c f' g' h m hg.
        let (ne, other, (f, there, old, x)) = Left-children w p c f' h m in
        let (g, gh, y) = Left-back w c g' other hg in y.parent ∙ v.parent_of p c f g there old gh;
    ordered = λ p f' h. elim (ℕ_discrete p r) [
      | yes e ↦
          let (none_left, joined) = w.gone f' (ap (S.get rt'.fibers) (sym e) ∙ h) in
          subst IsOrdered (sym none_left) tt
      | no ne ↦ let (f, there, x) = Left-back w p f' ne h in x.order (v.ordered p f there)
    ];
    parents_linked = λ p c f' h m.
        let (ne, other, (f, there, old, x)) = Left-children w p c f' h m in
        Left-IsLinked w p ne (v.parents_linked p c f there old);
    root =
        let (f, h, top) = v.root in
        let (f', h', x) = w.kept 0 f (λ e. w.not_root (sym e)) h in (f', h', x.parent ∙ top);
  }

  pub Left-IsSound : {rt rt' : Runtime S} {r : ℕ} → Left rt rt' r → IsSound S rt → IsSound S rt'
  Left-IsSound {rt} {rt'} {r} w v = record {
    tree = Left-IsTree w v.tree;
    ready_linked = λ k m. let (l, ne) = w.ready k m in Left-IsLinked w k ne l;
    joiner_linked = λ k j f' h e. elim (ℕ_discrete k r) [
      | yes same ↦
          let (none_left, joined) = w.gone f' (ap (S.get rt'.fibers) (sym same) ∙ h) in
          absurd (joined j e)
      | no ne ↦
          let (f, there, x) = Left-back w k f' ne h in
          let waits : f.join_handle ≡ waiting (some j) = sym x.join_handle ∙ e in
          Left-IsLinked w j
            (λ same. w.unawaited k f there ne (waits ∙ ap (λ i. waiting (some i)) same))
            (v.joiner_linked k j f there waits)
    ];
    unjoined = λ k f' l h e.
        let (ne, old) = Left-IsLinked_back w k l in
        let (f, there, x) = Left-back w k f' ne h in
        v.unjoined k f old there (sym x.join_handle ∙ e);
  }
