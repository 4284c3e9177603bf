-- ===== src/Runtime/Growth.antt =====
-- How the queue of a channel grows by sends that drop a value when there is no room.
use k8s_vectordb_sync.Base.{
  ◌+◌, ◌≤◌, ◌<◌, ◌≡◌, refl, sym, ◌∙◌, ap, ap₂, Bool, true, false, List, [], ◌∷◌, ◌++◌, arith,
  length, length-append, keep, keep-append,
}
use mathlib.Core.List.{Sublistᴰ}
use mathlib.Core.List.Sublistᴰ
use mathlib.Core.List.{append_assoc, append-nil}
use k8s_vectordb_sync.Runtime.Channel.{Channel, has_room, push}

module _ {ℓ} {A : Type ℓ} (must : A → Bool) where
  -- Of the values `es`, in this order, some were added to the channel `c`, which gave `d`; all of
  -- them, if there was room and nobody had stopped, and those that must be, if nobody had.
  pub record Grows (stopped : Bool) (c d : Channel A) (es : List A) : Type ℓ where
    pub kept : List A
    pub sent : d.queue ≡ c.queue ++ kept
    pub same_capacity : d.capacity ≡ c.capacity
    pub in_order : Sublistᴰ kept es
    pub fits : length c.queue ≤ c.capacity → length d.queue ≤ d.capacity
    pub certain : stopped ≡ false → keep must kept ≡ keep must es
    pub unless_full : stopped ≡ false → length d.queue < c.capacity → kept ≡ es
    pub whole : stopped ≡ false → length c.queue + length es ≤ c.capacity → kept ≡ es

  pub Grows-refl : (stopped : Bool) (c : Channel A) → Grows stopped c c []
  Grows-refl stopped c = record {
    kept = [];
    sent = sym (append-nil c.queue);
    same_capacity = refl;
    in_order = Sublistᴰ.slnil;
    fits = λ h. h;
    certain = λ _. refl;
    unless_full = λ _ _. refl;
    whole = λ _ _. refl;
  }

  pub Grows-push :
      (stopped : Bool) (c : Channel A) (a : A)
      → has_room c ≡ true
      → Grows stopped c (push a c) (a ∷ [])
  Grows-push stopped c a r = record {
    kept = a ∷ [];
    sent = refl;
    same_capacity = refl;
    in_order = Sublistᴰ.cons-cons refl Sublistᴰ.slnil;
    fits = λ h. ground (arith, length-append c.queue (a ∷ []));
    certain = λ _. refl;
    unless_full = λ _ _. refl;
    whole = λ _ _. refl;
  }

  -- A value is dropped only if somebody had stopped, or there was no room and it need not be sent.
  pub Grows-drop :
      (stopped : Bool) (c : Channel A) (a : A)
      → (stopped ≡ false → (has_room c ≡ false) × (must a ≡ false))
      → Grows stopped c c (a ∷ [])
  Grows-drop stopped c a r = record {
    kept = [];
    sent = sym (append-nil c.queue);
    same_capacity = refl;
    in_order = Sublistᴰ.cons Sublistᴰ.slnil;
    fits = λ h. h;
    certain = λ s. rw ((r s).1) refl;
    unless_full = λ s h. absurd (ground (arith, (r s).0));
    whole = λ s h. absurd (ground (arith, (r s).0));
  }

  pub Grows-append :
      (stopped : Bool) (b c d : Channel A) (es fs : List A)
      → Grows stopped b c es
      → Grows stopped c d fs
      → Grows stopped b d (es ++ fs)
  Grows-append stopped b c d es fs g h = record {
    kept = g.kept ++ h.kept;
    sent = h.sent ∙ ap (λ q. q ++ h.kept) g.sent ∙ append_assoc b.queue g.kept h.kept;
    same_capacity = h.same_capacity ∙ g.same_capacity;
    in_order = Sublistᴰ.append g.in_order h.in_order;
    fits = λ k. h.fits (g.fits k);
    certain = λ s.
        keep-append must g.kept h.kept
        ∙ ap₂ (λ xs ys. xs ++ ys) (g.certain s) (h.certain s)
        ∙ sym (keep-append must es fs);
    unless_full = λ s k.
        let long : length d.queue ≡ length c.queue + length h.kept =
          ap length h.sent ∙ length-append c.queue h.kept in
        ap₂ (λ xs ys. xs ++ ys) (g.unless_full s (omega (arith, k, long)))
          (h.unless_full s (omega (arith, k, g.same_capacity)));
    whole = λ s k.
        let first : g.kept ≡ es = g.whole s (omega (arith, k, length-append es fs)) in
        let long : length c.queue ≡ length b.queue + length es =
          ap length g.sent
          ∙ length-append b.queue g.kept
          ∙ ap (λ xs. length b.queue + length xs) first in
        ap₂ (λ xs ys. xs ++ ys) first
          (h.whole s (omega (arith, k, long, g.same_capacity, length-append es fs)));
  }
