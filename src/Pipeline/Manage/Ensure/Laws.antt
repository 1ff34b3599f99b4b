-- ===== src/Pipeline/Manage/Ensure/Laws.antt =====
-- What is relied on of a host, and what a run may leave of it.
use gobackup_docker.Pipeline.Manage.Ensure.Steps.{resume-on, HostSteps}
use gobackup_docker.Base.{
  Bool-cases, inl, inr, sym, refl, ◌⊎◌, ◌∙◌, ◌≡◌, Bool, true, false, Option, none, some, Bytes,
}
use gobackup_docker.Pipeline.Docker.{InspectResult}
use gobackup_docker.Pipeline.Manage.Replace.{
  PendingReplacement, is_valid_pending, ok, resume_replacement,
}
use gobackup_docker.Pipeline.Manage.Replace.Recovery.{
  AfterClear, IsReplacement, Resumable, Daemon, Outcome, resume_lem,
}
use gobackup_docker.Pipeline.Manage.Ensure.{RecordRead, missing, unreadable, content, Host, Codec}

abbrev pub ReadTells : Option Bytes → RecordRead → Type 0
ReadTells f missing = f ≡ none
ReadTells f unreadable = Unit
ReadTells f (content t) = f ≡ some t

abbrev pub AfterWrite : Bytes → Option Bytes → Option Bytes → Bool → Type 0
AfterWrite t before after true = after ≡ some t
AfterWrite t before after false = (after ≡ before) ⊎ (after ≡ some t)

-- a valid record, of an engine whose name Docker takes for a name
abbrev pub IsSound : (Bytes → Bool) → PendingReplacement → Type 0
IsSound is_plain p = (is_valid_pending p ≡ true) × (is_plain p.spec.name ≡ true)

-- the calls that are left without writes of the record
abbrev pub silent : {W : Type 0} → Host W → Host W
silent host = record host { write_record = λ text w. (w, false) }

-- the file was left alone or is gone
abbrev pub Kept : {W : Type 0} → (W → Option Bytes) → W → W → Type 0
Kept file w w' = (file w' ≡ file w) ⊎ (file w' ≡ none)

-- What is relied on of Docker and of the file system: names, the plain ones, that Docker takes for no
-- id of a container; that of `Daemon` for every valid record of an engine with a plain name; one file,
-- which no call but a write puts anything in; listings, inspections, reads and writes that change no container, a container that an inspection
-- shows standing under its name, a write that is done when it reports so, and a JSON text that
-- reads back as the record it was made of.
pub record HostLaws {W : Type 0} (host : Host W) (codec : Codec) : Type 0 where
  pub holds : Bytes → W → Option InspectResult
  pub file : W → Option Bytes
  pub is_plain : Bytes → Bool
  pub daemon : (p : PendingReplacement) → IsSound is_plain p → Daemon host.manager p
  pub same_holds :
      (p : PendingReplacement) (v : IsSound is_plain p) (w : W)
      → (daemon p v).holds w ≡ holds p.spec.name w
  pub same_file :
      (p : PendingReplacement) (v : IsSound is_plain p) (w : W) → (daemon p v).file w ≡ file w
  pub list_holds : (n : Bytes) (w : W) → holds n (host.list_all w).0 ≡ holds n w
  pub list_file : (w : W) → file (host.list_all w).0 ≡ file w
  pub show_holds : (n id : Bytes) (w : W) → holds n (host.manager.inspect id w).0 ≡ holds n w
  pub show_file : (id : Bytes) (w : W) → file (host.manager.inspect id w).0 ≡ file w
  pub show_tells :
      (id : Bytes) (w : W) (c : InspectResult)
      → (host.manager.inspect id w).1 ≡ ok c
      → holds c.name w ≡ some c
  pub calls : HostSteps (silent host) (Kept file)
  pub read_holds : (n : Bytes) (w : W) → holds n (host.read_record w).0 ≡ holds n w
  pub read_file : (w : W) → file (host.read_record w).0 ≡ file w
  pub read_tells : (w : W) → ReadTells (file w) (host.read_record w).1
  pub write_holds : (n t : Bytes) (w : W) → holds n (host.write_record t w).0 ≡ holds n w
  pub write_file :
      (t : Bytes) (w : W)
      → AfterWrite t (file w) (file (host.write_record t w).0) (host.write_record t w).1
  pub decode-encode :
      (p : PendingReplacement) (t : Bytes) → codec.encode p ≡ some t → codec.decode t ≡ some p

pub Kept-then :
    {W : Type 0} (file : W → Option Bytes) (u v w : W)
    → Kept file u v
    → Kept file v w
    → Kept file u w
Kept-then file u v w h (inr g) = inr g
Kept-then file u v w (inl f) (inl g) = inl (g ∙ f)
Kept-then file u v w (inr f) (inl g) = inr (g ∙ f)

-- a file that is removed is gone, or is left as it was
pub cleared-Kept :
    (before after : Option Bytes) (done : Bool)
    → AfterClear before after done
    → (after ≡ before) ⊎ (after ≡ none)
cleared-Kept before after true e = inr e
cleared-Kept before after false e = inl e

module _ {W : Type 0} {host : Host W} {codec : Codec} (laws : HostLaws host codec) where
  -- the container under the name of the engine
  abbrev pub holds : PendingReplacement → W → Option InspectResult
  holds p w = laws.holds p.spec.name w

  -- the file holds the text of the record
  pub record Saved (p : PendingReplacement) (w : W) : Type 0 where
    pub text : Bytes
    pub saved : laws.file w ≡ some text
    pub reads : codec.decode text ≡ some p

  -- What a run may leave of `w`: everything as it was; a valid record, in a state that a next run
  -- starts from; the replacement, and no record; or, of an engine whose name Docker may take for an
  -- id, its record or none.
  pub data Leaves (w w' : W) : Type 0 where
    untouched :
        ((n : Bytes) → laws.holds n w' ≡ laws.holds n w) → laws.file w' ≡ laws.file w → Leaves w w'
    pending :
        (p : PendingReplacement)
        → Saved p w'
        → is_valid_pending p ≡ true
        → Resumable p (holds p w')
        → Leaves w w'
    replaced :
        (p : PendingReplacement) (c : InspectResult)
        → holds p w' ≡ some c
        → IsReplacement p c
        → laws.file w' ≡ none
        → Leaves w w'
    mistaken :
        (p : PendingReplacement)
        → laws.is_plain p.spec.name ≡ false
        → Saved p w' ⊎ (laws.file w' ≡ none)
        → Leaves w w'

  moved_on : {v w : W} (p : PendingReplacement) → laws.file w ≡ laws.file v → Saved p v → Saved p w
  moved_on p g s = record { text = s.text; saved = g ∙ s.saved; reads = s.reads }

  pub Leaves-trans : {u v w : W} → Leaves u v → Leaves v w → Leaves u w
  Leaves-trans l (pending p s v r) = pending p s v r
  Leaves-trans l (replaced p c h r f) = replaced p c h r f
  Leaves-trans l (mistaken p n f) = mistaken p n f
  Leaves-trans (untouched h f) (untouched k g) = untouched (λ n. k n ∙ h n) (g ∙ f)
  Leaves-trans (pending p s v r) (untouched k g) =
      pending p (moved_on p g s) v (rw (k p.spec.name) r)
  Leaves-trans (replaced p c h r f) (untouched k g) = replaced p c (k p.spec.name ∙ h) r (g ∙ f)
  Leaves-trans (mistaken p n (inl s)) (untouched k g) = mistaken p n (inl (moved_on p g s))
  Leaves-trans (mistaken p n (inr f)) (untouched k g) = mistaken p n (inr (g ∙ f))

  pub Leaves-refl : (w : W) → Leaves w w
  Leaves-refl w = untouched (λ n. refl) refl

  resumed-Leaves :
      (p : PendingReplacement) (v : IsSound laws.is_plain p) (w : W) (wr : W × Option Bytes)
      → Saved p w
      → Outcome (laws.daemon p v) (laws.file w) wr
      → Leaves w wr.0
  resumed-Leaves p v w (w', none) s (r, f) =
      pending p
        (record {
          text = s.text;
          saved = sym (laws.same_file p v w') ∙ f ∙ s.saved;
          reads = s.reads;
        })
        v.0 (rw (laws.same_holds p v w') at r)
  resumed-Leaves p v w (w', some id) s ((c, h, e, r), f) =
      replaced p c (sym (laws.same_holds p v w') ∙ h) r (sym (laws.same_file p v w') ∙ f)

  kept-Leaves :
      (p : PendingReplacement) (w w' : W)
      → laws.is_plain p.spec.name ≡ false
      → Saved p w
      → Kept laws.file w w'
      → Leaves w w'
  kept-Leaves p w w' n s (inl f) = mistaken p n (inl (moved_on p f s))
  kept-Leaves p w w' n s (inr f) = mistaken p n (inr f)

  pub resume-Leaves :
      (p : PendingReplacement) (w : W)
      → Saved p w
      → is_valid_pending p ≡ true
      → (laws.is_plain p.spec.name ≡ true → Resumable p (holds p w))
      → Leaves w (resume_replacement host.manager p w).0
  resume-Leaves p w s valid r = elim (Bool-cases (laws.is_plain p.spec.name)) [
    | inl plain ↦
        let v : IsSound laws.is_plain p = (valid, plain) in
        resumed-Leaves p v w (resume_replacement host.manager p w) s (
          rw (laws.same_file p v w) at
            (resume_lem (laws.daemon p v) w valid (rw (laws.same_holds p v w) (r plain))))
    | inr n ↦ kept-Leaves p w _ n s (resume-on laws.calls w p w (laws.calls.same w))
  ]
