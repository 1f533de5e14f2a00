-- ===== src/ClaudeFanout/Ledger.antt =====
-- Books over the actions of the fan-out: what its calls take in, what they give out, and what its
-- variables hold in between, as lists in order.
use mathlib.Core.List.{append_assoc, append-nil}
use zeromux.ClaudeFanout.State.{Fanout, Action}
use zeromux.Effects.{Effect, ◌>>◌, in_order, when}
use zeromux.Prelude.{
  ◌≡◌, refl, sym, ap, ◌∙◌, Bool, true, false, List, [], ◌∷◌, ◌++◌, Each, done, ◌▹◌,
}

module _ {A : Type 0} where
  abbrev pub collect : (Effect → List A) → List Effect → List A
  collect f [] = []
  collect f (e ∷ es) = f e ++ collect f es

  pub collect-append :
      (f : Effect → List A) (es fs : List Effect)
      → collect f (es ++ fs) ≡ collect f es ++ collect f fs
  collect-append f [] fs = refl
  collect-append f (e ∷ es) fs =
      ap (λ l. f e ++ l) (collect-append f es fs)
      ∙ sym (append_assoc (f e) (collect f es) (collect f fs))

module _ {A : Type 0} (taken given : Effect → List A) (held : Fanout → List A) where
  -- What is given out and what is held after is what was held before and what is taken in.
  abbrev pub Balanced : Action → Fanout → Type 0
  Balanced a s = collect given (a s).1 ++ held (a s).0 ≡ held s ++ collect taken (a s).1

  >>-Balanced :
      (a b : Action) (s : Fanout) → Balanced a s → Balanced b (a s).0 → Balanced (a >> b) s
  >>-Balanced a b s p q =
      let es = (a s).1 in
      let fs = (b (a s).0).1 in
      let s1 = (a s).0 in
      let s2 = (b s1).0 in
      ap (λ l. l ++ held s2) (collect-append given es fs)
      ∙ append_assoc (collect given es) (collect given fs) (held s2)
      ∙ ap (λ l. collect given es ++ l) q
      ∙ sym (append_assoc (collect given es) (held s1) (collect taken fs))
      ∙ ap (λ l. l ++ collect taken fs) p
      ∙ append_assoc (held s) (collect taken es) (collect taken fs)
      ∙ ap (λ l. held s ++ l) (sym (collect-append taken es fs))

  pub in_order-Balanced :
      (actions : List Action) (s : Fanout)
      → Each (λ a. (t : Fanout) → Balanced a t) actions
      → Balanced (in_order actions) s
  in_order-Balanced [] s done = sym (append-nil (held s))
  in_order-Balanced (a ∷ later) s (p ▹ ps) =
      >>-Balanced a (in_order later) s (p s) (in_order-Balanced later (a s).0 ps)

  pub when-Balanced : (b : Bool) (a : Action) (s : Fanout) → Balanced a s → Balanced (when b a) s
  when-Balanced true a s p = p
  when-Balanced false a s p = sym (append-nil (held s))
