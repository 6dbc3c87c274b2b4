-- ===== src/Runtime/Session/Steps.antt =====
-- session.py: how the operations of several threads interleave.
use vitruvio.Prelude.{ℕ, List, [], ◌∷◌, ◌++◌, Option, none, some, Bool, In, Eq, ◌≡◌, ◌≢◌}
use vitruvio.Runtime.Session.{
  Capability, Writer, Session, init, acquire, release, settle, invalidate, brain, write_brain, pin,
}

-- Where a call of `write` stands: it has the lock, it has read the head, or it has settled.
pub data Phase (H : Type 0) : Type 0 where
  entering leaving : Phase H
  running : H → Phase H

pub record Call (H : Type 0) : Type 0 where
  pub owner : Writer
  pub phase : Phase H

abbrev pub call : {H : Type 0} → Writer → Phase H → Call H
call owner phase = record { owner = owner; phase = phase }

-- a read that `pinned` has begun: its brain and generation
abbrev pub Read : Type 0 → Type 0
Read B = B × ℕ

-- The session, the durable head, the calls of `write` under way, and the reads begun.
pub record World (H B : Type 0) : Type 0 where
  pub session : Session B
  pub head : H
  pub calls : List (Call H)
  pub reads : List (Read B)

abbrev pub world : {H B : Type 0} → Session B → H → List (Call H) → List (Read B) → World H B
world s h cs rs = record { session = s; head = h; calls = cs; reads = rs }

-- No call of `write` is between its two readings of the head.
abbrev pub IsQuiet : {H : Type 0} → List (Call H) → Type 0
IsQuiet {H} calls = (w : Writer) (before : H) → ¬ In (call w (running before)) calls

module _ {H B : Type 0} ⦃e : Eq H⦄ (open_brain open_install : Capability → H → Option B) where
  -- One section of one thread. The head moves only inside a `write` of this session, and never to a
  -- head that a `write` under way has started from.
  pub data Step : World H B → World H B → Type 0 where
    opened :
        (s s' : Session B) (h : H) (cs : List (Call H)) (rs : List (Read B)) (c : Capability)
        (b : B)
        → brain open_brain c h s ≡ some (b, s')
        → Step (world s h cs rs) (world s' h cs rs)
    acquired :
        (s s' : Session B) (h : H) (cs : List (Call H)) (rs : List (Read B)) (me : Writer)
        → acquire me s ≡ some s'
        → Step (world s h cs rs) (world s' h (call me entering ∷ cs) rs)
    began :
        (s s' : Session B) (h : H) (xs ys : List (Call H)) (rs : List (Read B)) (me : Writer)
        (install : Bool) (b : B)
        → write_brain open_brain open_install install h s ≡ some (b, s')
        → Step
            (world s h (xs ++ call me entering ∷ ys) rs)
            (world s' h (xs ++ call me (running h) ∷ ys) rs)
    failed :
        (s : Session B) (h : H) (xs ys : List (Call H)) (rs : List (Read B)) (me : Writer)
        (install : Bool)
        → write_brain open_brain open_install install h s ≡ none
        → Step
            (world s h (xs ++ call me entering ∷ ys) rs)
            (world s h (xs ++ call me leaving ∷ ys) rs)
    advanced :
        (s : Session B) (h h' : H) (cs : List (Call H)) (rs : List (Read B)) (me : Writer)
        (before : H)
        → In (call me (running before)) cs
        → ((w : Writer) (b : H) → In (call w (running b)) cs → b ≢ h')
        → Step (world s h cs rs) (world s h' cs rs)
    settled :
        (s : Session B) (h : H) (xs ys : List (Call H)) (rs : List (Read B)) (me : Writer)
        (before : H)
        → Step
            (world s h (xs ++ call me (running before) ∷ ys) rs)
            (world (settle h before s) h (xs ++ call me leaving ∷ ys) rs)
    released :
        (s : Session B) (h : H) (xs ys : List (Call H)) (rs : List (Read B)) (me : Writer)
        → Step (world s h (xs ++ call me leaving ∷ ys) rs) (world (release s) h (xs ++ ys) rs)
    pinned :
        (s s' : Session B) (h : H) (cs : List (Call H)) (rs : List (Read B)) (c : Capability)
        (r : Read B)
        → pin open_brain c h s ≡ some (r, s')
        → Step (world s h cs rs) (world s' h cs (r ∷ rs))
    invalidated :
        (s : Session B) (h : H) (cs : List (Call H)) (rs : List (Read B))
        → Step (world s h cs rs) (world (invalidate s) h cs rs)

  -- What the threads can lead to, from a new session.
  pub data Reachable : World H B → Type 0 where
    start : (h : H) → Reachable (world init h [] [])
    next : (w w' : World H B) → Reachable w → Step w w' → Reachable w'
