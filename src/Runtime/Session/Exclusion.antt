-- ===== src/Runtime/Session/Exclusion.antt =====
-- session.py, `write`: one writer at a time.
use vitruvio.Prelude.{
  suc, List, [], ◌∷◌, ◌++◌, Option, none, some, In, In-append, Eq, length, ◌≡◌, ◌↔◌, ◌⊎◌, inl, inr,
  refl, sym, ap, ◌∙◌, ◌<◌, arith,
}
use vitruvio.Runtime.Session.{
  Capability, Writer, Session, init, acquire, release, settle, brain, write_brain, pin, invalidate,
}
use vitruvio.Runtime.Session.Steps.{Phase, Call, call, World, Step, Reachable}

-- The lock counts the calls of `write` under way, and they all belong to its holder.
pub record IsHeld {H B : Type 0} (s : Session B) (calls : List (Call H)) : Type 0 where
  pub counted : s.depth ≡ length calls
  pub idle : s.writer ≡ none → calls ≡ []
  pub free : calls ≡ [] → s.writer ≡ none
  pub owned : (c : Call H) → In c calls → s.writer ≡ some c.owner

module _ {A : Type 0} where
  length-middle : (xs ys : List A) (x : A) → length (xs ++ x ∷ ys) ≡ suc (length (xs ++ ys))
  length-middle [] ys x = refl
  length-middle (z ∷ xs) ys x = ap suc (length-middle xs ys x)

  pub In-middle : (xs ys : List A) (x y : A) → In y (xs ++ x ∷ ys) ↔ ((y ≡ x) ⊎ In y (xs ++ ys))
  In-middle xs ys x y = ground (arith, In-append y xs (x ∷ ys), In-append y xs ys)

  length-zero : (xs : List A) → length xs ≡ 0 → xs ≡ []
  length-zero [] e = refl
  length-zero (x ∷ xs) e = absurd (ground arith)

  length-In : (xs : List A) (x : A) → In x xs → 0 < length xs
  length-In [] x m = absurd m
  length-In (y ∷ xs) x m = omega arith

module _ {H B : Type 0} where
  holder :
      (s : Session B) (xs ys : List (Call H)) (me : Writer) (p : Phase H)
      → IsHeld s (xs ++ call me p ∷ ys)
      → s.writer ≡ some me
  holder s xs ys me p h =
      h.owned (call me p) ((In-middle xs ys (call me p) (call me p)).1 (inl refl))

  -- A call that goes on to another phase.
  turn-IsHeld :
      (s s' : Session B) (xs ys : List (Call H)) (me : Writer) (p q : Phase H)
      → s'.depth ≡ s.depth
      → s'.writer ≡ s.writer
      → IsHeld s (xs ++ call me p ∷ ys)
      → IsHeld s' (xs ++ call me q ∷ ys)
  turn-IsHeld s s' xs ys me p q d w h = record {
    counted =
        ground (arith, h.counted, length-middle xs ys (call me p), length-middle xs ys (call me q));
    idle = λ e. ground (arith, holder s xs ys me p h);
    free = λ e. absurd (ground (arith, e, length-middle xs ys (call me q)));
    owned = λ c m. elim ((In-middle xs ys (call me q) c).0 m) [
      | inl r ↦ w ∙ holder s xs ys me p h ∙ ap (λ (x : Call H). some x.owner) (sym r)
      | inr k ↦ w ∙ h.owned c ((In-middle xs ys (call me p) c).1 (inr k))
    ];
  }

  same-IsHeld :
      (s s' : Session B) (cs : List (Call H))
      → s'.depth ≡ s.depth
      → s'.writer ≡ s.writer
      → IsHeld s cs
      → IsHeld s' cs
  same-IsHeld s s' cs d w h = record {
    counted = d ∙ h.counted;
    idle = λ e. h.idle (sym w ∙ e);
    free = λ e. w ∙ h.free e;
    owned = λ c m. w ∙ h.owned c m;
  }

  release-IsHeld :
      (s : Session B) (xs ys : List (Call H)) (me : Writer) (p : Phase H)
      → IsHeld s (xs ++ call me p ∷ ys)
      → IsHeld (release s) (xs ++ ys)
  unfolding release
  release-IsHeld s xs ys me p h = record {
    counted = ground (arith, h.counted, length-middle xs ys (call me p));
    idle = λ e.
        length-zero (xs ++ ys)
          (ground (arith, h.counted, length-middle xs ys (call me p), holder s xs ys me p h));
    free = λ e. ground (arith, e, h.counted, length-middle xs ys (call me p));
    owned = λ c m.
        let kept = h.owned c ((In-middle xs ys (call me p) c).1 (inr m)) in
        ground (arith, kept, h.counted, length-middle xs ys (call me p), length-In (xs ++ ys) c m);
  }

module _ {H B : Type 0} ⦃e : Eq H⦄ (open_brain open_install : Capability → H → Option B) where
  Step-IsHeld :
      (w w' : World H B)
      → Step open_brain open_install w w'
      → IsHeld w.session w.calls
      → IsHeld w'.session w'.calls
  unfolding acquire brain write_brain pin settle invalidate
  Step-IsHeld w w' (Step.opened s s' h cs rs c b p) i =
      same-IsHeld s s' cs (ground arith) (ground arith) i
  Step-IsHeld w w' (Step.acquired s s' h cs rs me p) i = record {
    counted = ground (arith, i.counted);
    idle = λ e. ground arith;
    free = λ e. absurd (ground arith);
    owned = λ c m. elim m [
      | inl q ↦ ground (arith, ap (λ (x : Call H). x.owner) q)
      | inr k ↦ ground (arith, i.owned c k)
    ];
  }
  Step-IsHeld w w' (Step.began s s' h xs ys rs me install b p) i =
      turn-IsHeld s s' xs ys me _ _ (ground arith) (ground arith) i
  Step-IsHeld w w' (Step.failed s h xs ys rs me install p) i =
      turn-IsHeld s s xs ys me _ _ refl refl i
  Step-IsHeld w w' (Step.advanced s h h' cs rs me before m f) i = i
  Step-IsHeld w w' (Step.settled s h xs ys rs me before) i =
      turn-IsHeld s (settle h before s) xs ys me _ _ (ground arith) (ground arith) i
  Step-IsHeld w w' (Step.released s h xs ys rs me) i = release-IsHeld s xs ys me _ i
  Step-IsHeld w w' (Step.pinned s s' h cs rs c r p) i =
      same-IsHeld s s' cs (ground arith) (ground arith) i
  Step-IsHeld w w' (Step.invalidated s h cs rs) i = record {
    counted = i.counted;
    idle = i.idle;
    free = i.free;
    owned = i.owned;
  }

  reached : (w : World H B) → Reachable open_brain open_install w → IsHeld w.session w.calls
  unfolding init
  reached w (Reachable.start h) = record {
    counted = refl;
    idle = λ e. refl;
    free = λ e. refl;
    owned = λ c m. absurd m;
  }
  reached w (Reachable.next v v' r t) = Step-IsHeld v v' t (reached v r)

  -- In every world that the threads can reach, all the calls of `write` under way belong to one
  -- writer, which holds the lock; the lock's depth is their number; and it is free exactly if there
  -- is none.
  pub write_exclusive :
      (w : World H B)
      → Reachable open_brain open_install w
      → ((c d : Call H) → In c w.calls → In d w.calls → c.owner ≡ d.owner)
        × (w.session.depth ≡ length w.calls)
        × ((w.session.writer ≡ none) ↔ (w.calls ≡ []))
  write_exclusive w r =
      let h = reached w r in
      ((λ c d m n. ground (arith, h.owned c m, h.owned d n)), h.counted, (h.idle, h.free))
