-- ===== src/Runtime/Safety/Frame.antt =====
-- Changes to the fibers of src/runtime/mod.rs that leave the tree as it is.
use uringy.Common.{
  ℕ, ◌≡◌, refl, sym, ap, ◌∙◌, ◌⊎◌, inl, inr, Option, none, some, Elem, Option-cases, arith, ◌==◌,
  if◌then◌else◌,
}
use mathlib.Core.Path.{subst}
use native.Mathlib.Decide.{ℕ_discrete}
use uringy.Runtime.Slab.{Slab}
use uringy.Runtime.State.{waiting, FiberState, Runtime}
use uringy.Runtime.Fibers.Family.{IsOrdered}
use uringy.Runtime.Safety.{Has, IsLinked, IsTree, IsSound}

module _ (S : Slab FiberState) where
  -- The same fibers, with the same parents and children.
  pub record Frame (rt rt' : Runtime S) : Type 0 where
    pub kept :
        (k : ℕ) (f : FiberState)
        → Has S rt k f
        → (f' : FiberState) × Has S rt' k f' × (f'.parent ≡ f.parent) × (f'.children ≡ f.children)
    pub absent : (k : ℕ) → S.get rt.fibers k ≡ none → S.get rt'.fibers k ≡ none

  pub Frame-back :
      {rt rt' : Runtime S}
      → Frame rt rt'
      → (k : ℕ) (f' : FiberState) → Has S rt' k f'
      → (f : FiberState) × Has S rt k f × (f'.parent ≡ f.parent) × (f'.children ≡ f.children)
  Frame-back {rt} {rt'} fr k f' h = elim (Option-cases (S.get rt.fibers k)) [
    | inl away ↦ absurd (ground (arith, fr.absent k away))
    | inr (f, there) ↦
        let (f2, h2, p, c) = fr.kept k f there in
        let same : ◌≡◌ {A = Option FiberState} (some f2) (some f') = sym h2 ∙ h in
        (f, there, ground arith, ground arith)
  ]

  pub Frame-IsLinked :
      {rt rt' : Runtime S} → Frame rt rt' → (k : ℕ) → IsLinked S rt k → IsLinked S rt' k
  Frame-IsLinked fr k (g, h, how) =
      let (g', h', p, c) = fr.kept k g h in
      (
        g',
        h',
        elim how [
          | inl e ↦ inl e
          | inr (q, f, up, there, m) ↦
              let (f', there', pf, cf) = fr.kept q f there in
              inr (q, f', p ∙ up, there', subst (Elem k) (sym cf) m)
        ],
      )

  pub Frame-IsTree : {rt rt' : Runtime S} → Frame rt rt' → IsTree S rt → IsTree S rt'
  Frame-IsTree {rt} {rt'} fr v = record {
    rank = v.rank;
    ranked = record {
      present = λ k c f' h m.
          let (f, there, pf, cf) = Frame-back fr k f' h in
          let (g, gh) = v.ranked.present k c f there (subst (Elem c) cf m) in
          let (g', gh', pg, cg) = fr.kept c g gh in (g', gh');
      falls = λ k c f' h m.
          let (f, there, pf, cf) = Frame-back fr k f' h in
          v.ranked.falls k c f there (subst (Elem c) cf m);
    };
    parent_of = λ p c f' g' h m hg.
        let (f, there, pf, cf) = Frame-back fr p f' h in
        let (g, there_c, pg, cg) = Frame-back fr c g' hg in
        pg ∙ v.parent_of p c f g there (subst (Elem c) cf m) there_c;
    ordered = λ p f' h.
        let (f, there, pf, cf) = Frame-back fr p f' h in
        subst IsOrdered (sym cf) (v.ordered p f there);
    parents_linked = λ p c f' h m.
        let (f, there, pf, cf) = Frame-back fr p f' h in
        Frame-IsLinked fr p (v.parents_linked p c f there (subst (Elem c) cf m));
    root = let (f, h, top) = v.root in let (f', h', pf, cf) = fr.kept 0 f h in (f', h', pf ∙ top);
  }

  -- A fiber that is linked afterwards was linked before.
  pub Frame-IsLinked_back :
      {rt rt' : Runtime S} → Frame rt rt' → (k : ℕ) → IsLinked S rt' k → IsLinked S rt k
  Frame-IsLinked_back fr k (g', h', how) =
      let (g, h, p, c) = Frame-back fr k g' h' in
      (
        g,
        h,
        elim how [
          | inl e ↦ inl e
          | inr (q, f', up, there', m) ↦
              let (f, there, pf, cf) = Frame-back fr q f' there' in
              inr (q, f, sym p ∙ up, there, subst (Elem k) cf m)
        ],
      )

  -- If only fibers that have not left are added to the ready queue and to the join handles, the
  -- runtime stays sound.
  pub Frame-IsSound_waits :
      {rt rt' : Runtime S}
      → Frame rt rt'
      → IsSound S rt
      → ((k : ℕ) → Elem k rt'.ready_fibers → IsLinked S rt k)
      → ((k : ℕ) (f f' : FiberState) (w : Option ℕ)
          → Has S rt k f
          → Has S rt' k f'
          → f'.join_handle ≡ waiting w
          → (f.join_handle ≡ waiting w) ⊎ ((j : ℕ) × (w ≡ some j) × IsLinked S rt j))
      → IsSound S rt'
  Frame-IsSound_waits {rt} {rt'} fr v ready waits = record {
    tree = Frame-IsTree fr v.tree;
    ready_linked = λ k m. Frame-IsLinked fr k (ready k m);
    joiner_linked = λ k j f' h e.
        let (f, there, pf, cf) = Frame-back fr k f' h in
        Frame-IsLinked fr j (elim (waits k f f' (some j) there h e) [
          | inl old ↦ v.joiner_linked k j f there old
          | inr (i, same, l) ↦ let eq : j ≡ i = ground arith in subst (IsLinked S rt) (sym eq) l
        ]);
    unjoined = λ k f' l h e.
        let (f, there, pf, cf) = Frame-back fr k f' h in
        elim (waits k f f' none there h e) [
          | inl old ↦ v.unjoined k f (Frame-IsLinked_back fr k l) there old
          | inr (i, same, l') ↦ absurd (ground arith)
        ];
  }

  -- So it does if the join handles stay.
  pub Frame-IsSound :
      {rt rt' : Runtime S}
      → Frame rt rt'
      → IsSound S rt
      → ((k : ℕ) → Elem k rt'.ready_fibers → IsLinked S rt k)
      → ((k : ℕ) (f f' : FiberState)
          → Has S rt k f
          → Has S rt' k f'
          → f'.join_handle ≡ f.join_handle)
      → IsSound S rt'
  Frame-IsSound fr v ready handles =
      Frame-IsSound_waits fr v ready (λ k f f' w h h' e. inl (sym (handles k f f' h h') ∙ e))

  -- The same slab.
  pub Frame-same : {rt rt' : Runtime S} → rt'.fibers ≡ rt.fibers → Frame rt rt'
  Frame-same e = record {
    kept = λ k f h. (f, ap (λ s. S.get s k) e ∙ h, refl, refl);
    absent = λ k h. ap (λ s. S.get s k) e ∙ h;
  }

  -- An assignment to a fiber that leaves its parent and its children.
  pub Frame-set :
      {rt rt' : Runtime S} (k : ℕ) (f f' : FiberState)
      → rt'.fibers ≡ S.set rt.fibers k f'
      → Has S rt k f
      → f'.parent ≡ f.parent
      → f'.children ≡ f.children
      → Frame rt rt'
  Frame-set {rt} {rt'} k f f' e there p c =
      let look : (j : ℕ) → S.get rt'.fibers j ≡ (if j == k then some f' else S.get rt.fibers j) =
        λ j. ap (λ s. S.get s j) e ∙ S.get-set rt.fibers k f' f j there in
      record {
        kept = λ j g h. elim (ℕ_discrete j k) [
          | yes same ↦
              let eq : g ≡ f = ground (arith, h, there) in
              (
                f',
                ground (arith, look j),
                p ∙ sym (ap (λ x. x.parent) eq),
                c ∙ sym (ap (λ x. x.children) eq),
              )
          | no other ↦ (g, ground (arith, look j), refl, refl)
        ];
        absent = λ j h. ground (arith, look j);
      }

  -- A change of the ready queue and the running fiber alone.
  pub same-IsSound :
      (rt rt' : Runtime S)
      → rt'.fibers ≡ rt.fibers
      → IsSound S rt
      → ((k : ℕ) → Elem k rt'.ready_fibers → IsLinked S rt k)
      → IsSound S rt'
  same-IsSound rt rt' e v ready =
      Frame-IsSound {rt = rt} {rt' = rt'} (Frame-same e) v ready (λ k f f' h h'.
        let same : ◌≡◌ {A = Option FiberState} (some f') (some f) =
          sym h' ∙ ap (λ s. S.get s k) e ∙ h in
        ground arith)

  -- An assignment to a fiber that leaves its place in the tree and lets it wait for no more than it
  -- did, or lets a fiber that has not left wait for it.
  pub set-IsSound_waits :
      (rt rt' : Runtime S) (k : ℕ) (f f' : FiberState)
      → rt'.fibers ≡ S.set rt.fibers k f'
      → Has S rt k f
      → f'.parent ≡ f.parent
      → f'.children ≡ f.children
      → ((w : Option ℕ)
          → f'.join_handle ≡ waiting w
          → (f.join_handle ≡ waiting w) ⊎ ((j : ℕ) × (w ≡ some j) × IsLinked S rt j))
      → IsSound S rt
      → ((j : ℕ) → Elem j rt'.ready_fibers → IsLinked S rt j)
      → IsSound S rt'
  set-IsSound_waits rt rt' k f f' e there p c waits v ready =
      Frame-IsSound_waits {rt = rt} {rt' = rt'} (Frame-set k f f' e there p c) v ready
        (λ j g g' w h h' joined.
          let look : S.get rt'.fibers j ≡ (if j == k then some f' else S.get rt.fibers j) =
            ap (λ s. S.get s j) e ∙ S.get-set rt.fibers k f' f j there in
          handle j g g' w h h' joined look (ℕ_discrete j k))
    where
      handle :
          (j : ℕ) (g g' : FiberState) (w : Option ℕ)
          → Has S rt j g
          → Has S rt' j g'
          → g'.join_handle ≡ waiting w
          → S.get rt'.fibers j ≡ (if j == k then some f' else S.get rt.fibers j)
          → Dec (j ≡ k)
          → (g.join_handle ≡ waiting w) ⊎ ((i : ℕ) × (w ≡ some i) × IsLinked S rt i)
      handle j g g' w h h' joined look (yes eq) =
          let e1 : g' ≡ f' = ground (arith, h', look) in
          let e2 : g ≡ f = ground (arith, h, there) in
          subst (λ x. (x.join_handle ≡ waiting w) ⊎ ((i : ℕ) × (w ≡ some i) × IsLinked S rt i))
            (sym e2) (waits w (ap (λ x. x.join_handle) (sym e1) ∙ joined))
      handle j g g' w h h' joined look (no other) =
          let e1 : g' ≡ g = ground (arith, h, h', look) in
          inl (ap (λ x. x.join_handle) (sym e1) ∙ joined)

  -- An assignment that also leaves the join handle.
  pub set-IsSound :
      (rt rt' : Runtime S) (k : ℕ) (f f' : FiberState)
      → rt'.fibers ≡ S.set rt.fibers k f'
      → Has S rt k f
      → f'.parent ≡ f.parent
      → f'.children ≡ f.children
      → f'.join_handle ≡ f.join_handle
      → IsSound S rt
      → ((j : ℕ) → Elem j rt'.ready_fibers → IsLinked S rt j)
      → IsSound S rt'
  set-IsSound rt rt' k f f' e there p c same v ready =
      set-IsSound_waits rt rt' k f f' e there p c (λ w joined. inl (sym same ∙ joined)) v ready

  pub Frame-trans : {r1 r2 r3 : Runtime S} → Frame r1 r2 → Frame r2 r3 → Frame r1 r3
  Frame-trans a b = record {
    kept = λ k f h.
        let (f1, h1, p1, c1) = a.kept k f h in
        let (f2, h2, p2, c2) = b.kept k f1 h1 in (f2, h2, p2 ∙ p1, c2 ∙ c1);
    absent = λ k h. b.absent k (a.absent k h);
  }
