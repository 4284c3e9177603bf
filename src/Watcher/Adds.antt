-- ===== src/Watcher/Adds.antt =====
-- What is added to a channel that is also read: the values taken and those queued, as one list.
use k8s_vectordb_sync.Base.{
  ◌+◌, ◌≡◌, refl, sym, ◌∙◌, ap, Bool, true, false, not, ◌&&◌, List, [], ◌∷◌, ◌++◌, arith, length,
  keep, keep-append, leb, is_empty, leb→le, ap₂, ◌||◌,
}
use mathlib.Core.List.{Sublistᴰ, append_assoc, append-nil}
use mathlib.Core.List.Sublistᴰ
use k8s_vectordb_sync.Runtime.Channel.{Channel}
use k8s_vectordb_sync.Runtime.Growth.{Grows}

-- Nothing is to be sent, or nobody has stopped and there is room for it.
abbrev pub fits_in {ℓ} : {A : Type ℓ} → Bool → Channel A → List A → Bool
fits_in stopped c es = is_empty es || (not stopped && leb (length c.queue + length es) c.capacity)

module _ {ℓ} {A : Type ℓ} where
  -- From `xs` to `ys` some of the values `es` were added, in their order; all of them, if there was
  -- room, and those that must be, if nobody had stopped.
  pub record Adds (must : A → Bool) (stopped room : Bool) (xs ys es : List A) : Type ℓ where
    pub kept : List A
    pub sent : ys ≡ xs ++ kept
    pub in_order : Sublistᴰ kept es
    pub certain : stopped ≡ false → keep must kept ≡ keep must es
    pub whole : room ≡ true → kept ≡ es

  pub Adds-refl :
      (must : A → Bool) (stopped room : Bool) {xs ys : List A}
      → ys ≡ xs
      → Adds must stopped room xs ys []
  Adds-refl must stopped room {xs} e = record {
    kept = [];
    sent = e ∙ sym (append-nil xs);
    in_order = Sublistᴰ.slnil;
    certain = λ _. refl;
    whole = λ _. refl;
  }

  whole_of :
      (must : A → Bool) (stopped : Bool) (c d : Channel A) (es : List A)
      (g : Grows must stopped c d es)
      → fits_in stopped c es ≡ true
      → g.kept ≡ es
  whole_of must stopped c d [] g h = Sublistᴰ.eq-nil g.in_order
  whole_of must stopped c d (e ∷ es) g h =
      g.whole (ground (arith, h))
        (leb→le (length c.queue + length (e ∷ es)) c.capacity (ground (arith, h)))

  pub Adds-Grows :
      (must : A → Bool) (room stopped : Bool) (taken : List A) (c d : Channel A) (es : List A)
      → (room ≡ true → fits_in stopped c es ≡ true)
      → Grows must stopped c d es
      → Adds must stopped room (taken ++ c.queue) (taken ++ d.queue) es
  Adds-Grows must room stopped taken c d es h g = record {
    kept = g.kept;
    sent = ap (λ q. taken ++ q) g.sent ∙ sym (append_assoc taken c.queue g.kept);
    in_order = g.in_order;
    certain = g.certain;
    whole = λ r. whole_of must stopped c d es g (h r);
  }

  pub Adds-append :
      (must : A → Bool) (m n a b : Bool) {xs ys zs es fs : List A}
      → (n ≡ false → m ≡ false)
      → Adds must m a xs ys es
      → Adds must n b ys zs fs
      → Adds must n (a && b) xs zs (es ++ fs)
  Adds-append must m n a b {xs} {es = es} {fs = fs} back g h = record {
    kept = g.kept ++ h.kept;
    sent = h.sent ∙ ap (λ q. q ++ h.kept) g.sent ∙ append_assoc xs g.kept h.kept;
    in_order = Sublistᴰ.append g.in_order h.in_order;
    certain = λ s.
        keep-append must g.kept h.kept
        ∙ ap₂ (λ p q. p ++ q) (g.certain (back s)) (h.certain s)
        ∙ sym (keep-append must es fs);
    whole = λ r.
        let first = g.whole (ground (arith, r)) in
        let rest = h.whole (ground (arith, r)) in
        ap (λ q. q ++ h.kept) first ∙ ap (λ q. es ++ q) rest;
  }
