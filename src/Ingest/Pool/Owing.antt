-- ===== src/Ingest/Pool/Owing.antt =====
-- One reader of a pool: what it has returned and what it still owes are together what its file owes.
use trading_engine_hh.Base.{
  ℕ, ◌≡◌, ◌<◌, ◌≤◌, refl, sym, ap, ◌∙◌, ◌⊎◌, inl, inr, true, false, Option, none, some, List, [],
  ◌∷◌, ◌++◌, append_assoc, length, length-drop, ok, done, arith,
}
use mathlib.Core.Path.{subst}
use trading_engine_hh.Event.{Event}
use trading_engine_hh.Stream.{Answer, Delivers, Yield, Yields, last, more}
use trading_engine_hh.Stream.Unique.{Delivers-unique}
use trading_engine_hh.Reader.Repeat.{Delivers-again}
use trading_engine_hh.MemoryMappedFile.{Memory, bytes_of, MemoryMappedFile, empty_view}
use trading_engine_hh.MmapDbnReader.{MmapDbnReader, rest}
use trading_engine_hh.MmapDbnReader.Contract.{IsReady, mmap_next-Delivers}
use trading_engine_hh.MmapDbnReader.Interleaved.{next_over, next-map_left}
use trading_engine_hh.Ingest.Parity.{Ingests}
use trading_engine_hh.Ingest.Pool.{Slot, answered}

-- The end of a run whose last call has returned `nullopt`.
abbrev pub ending : MmapDbnReader → Yield
ending r = record { events = []; stats = r.stats; failed = r.failed }

abbrev pub after : List Event → Yield → Yield
after es y = record y { events = es ++ y.events }

pub answered-file :
    {P : Type 0} (s : Slot P) (t : Option Event × MmapDbnReader) → (answered s t).file ≡ s.file
answered-file s (none, r) = refl
answered-file s (some e, r) = refl

pub answered-moved_from :
    {P : Type 0} (s : Slot P) (t : Option Event × MmapDbnReader)
    → (answered s t).moved_from ≡ s.moved_from
answered-moved_from s (none, r) = refl
answered-moved_from s (some e, r) = refl

-- What the reader still owes; nothing more once a call has returned `nullopt`.
pub record Owes {P : Type 0} (contents : P → List ℕ) (s : Slot P) : Type 0 where
  pub owed : Yield
  pub yields : Yields (rest s.reader) s.reader.stats owed
  pub together : Ingests (contents s.path) (ok (after s.events owed))
  pub at_end : (s.ended ≡ false) ⊎ (owed ≡ ending s.reader)

module _ {P W : Type 0} (memory : Memory W) (contents : P → List ℕ) (fuel : ℕ) where
  -- In a system in state `w`.
  pub record Serves (w : W) (s : Slot P) : Type 0 where
    pub views : bytes_of memory s.file w ≡ s.reader.map
    pub all_bytes : s.reader.map ≡ contents s.path
    pub fits : length s.reader.map < fuel
    pub ready : IsReady s.reader
    pub past_header : 0 < s.reader.cursor
    pub owes : Owes contents s

  -- A reader that has been moved from has an empty view, and its cursor lies past the end of that.
  abbrev pub Stands : W → Slot P → Type 0
  Stands w s =
      ((s.moved_from ≡ true) × (s.file ≡ empty_view) × (s.file.size < s.reader.cursor))
      ⊎ ((s.moved_from ≡ false) × Serves w s)

  pub Stands-cursor : (w : W) (s : Slot P) → Stands w s → 0 < s.reader.cursor
  Stands-cursor w s (inl (left, nothing, past)) = omega (arith, past)
  Stands-cursor w s (inr (live, h)) = h.past_header

  -- The same view in another system.
  pub Serves-moved :
      (v w : W) (s : Slot P)
      → bytes_of memory s.file w ≡ bytes_of memory s.file v
      → Serves v s
      → Serves w s
  Serves-moved v w s e h = record {
    views = e ∙ h.views;
    all_bytes = h.all_bytes;
    fits = h.fits;
    ready = h.ready;
    past_header = h.past_header;
    owes = h.owes;
  }

  pub Stands-moved :
      (v w : W) (s : Slot P)
      → bytes_of memory s.file w ≡ bytes_of memory s.file v
      → Stands v s
      → Stands w s
  Stands-moved v w s e (inl left) = inl left
  Stands-moved v w s e (inr (live, h)) = inr (live, Serves-moved v w s e h)

  -- A reader with the same members and past, whose file is another object with the same view.
  pub Stands-same :
      (w : W) (s : Slot P) (m : MemoryMappedFile)
      → m ≡ s.file
      → Stands w s
      → Stands w (record s { file = m })
  Stands-same w s m e h = subst (λ o. Stands w (record s { file = o })) (sym e) h

  abbrev answer : Option Event → MmapDbnReader → Answer
  answer e r = record { event = e; rest = rest r; stats = r.stats; failed = r.failed }

  answered-Owes :
      (s : Slot P) (e : Option Event) (r : MmapDbnReader) (o : Owes contents s) {y : Yield}
      → y ≡ o.owed
      → Yields (rest s.reader) s.reader.stats y
      → Delivers (rest s.reader) s.reader.stats (answer e r)
      → Owes contents (answered s (e, r))
  answered-Owes s none r o same (last a d n e) given =
      let same_answer : a ≡ answer none r = Delivers-unique d given in
      let is : o.owed ≡ ending r =
        sym same
        ∙ e
        ∙ ap (λ (b : Answer). record { events = []; stats = b.stats; failed = b.failed })
            same_answer in
      record {
        owed = ending r;
        yields = last (answer none r) (Delivers-again given refl) refl refl;
        together = subst (λ y. Ingests (contents s.path) (ok (after s.events y))) is o.together;
        at_end = inr refl;
      }
  answered-Owes s none r o same (more a x z d n m e) given = cc (n, Delivers-unique d given)
  answered-Owes s (some x) r o same (last a d n e) given = cc (n, Delivers-unique d given)
  answered-Owes s (some x) r o same (more a x' z d n m e) given =
      let same_answer : a ≡ answer (some x) r = Delivers-unique d given in
      let same_event : x' ≡ x = cc (n, ap (λ (b : Answer). b.event) same_answer) in
      let is : after s.events o.owed ≡ after (s.events ++ (x ∷ [])) z =
        ap (after s.events) (sym same ∙ e)
        ∙ rw same_event
            (ap (λ es. record z { events = es }) (sym (append_assoc s.events (x ∷ []) z.events))) in
      record {
        owed = z;
        yields = subst (λ (b : Answer). Yields b.rest b.stats z) same_answer m;
        together = subst (λ y. Ingests (contents s.path) (ok y)) is o.together;
        at_end = inl refl;
      }

  -- A call on one of the readers.
  pub next_over-Serves :
      (w : W) (s : Slot P)
      → Serves w s
      → (t : Option Event × MmapDbnReader) × (next_over memory s.file fuel s.reader w ≡ done t)
        × Serves w (answered s t)
  unfolding next_over
  next_over-Serves w s h =
      let (e, r, runs, given, ready, less) =
        mmap_next-Delivers fuel s.reader h.ready
          (omega (arith, h.fits, length-drop s.reader.cursor s.reader.map)) in
      let map_kept : r.map ≡ s.reader.map = rw runs at (next-map_left fuel s.reader) in
      (
        (e, r),
        rw h.views runs,
        still_Serves e r given ready map_kept (onward r ready map_kept less),
      )
    where
      -- The cursor does not go back.
      onward :
          (r : MmapDbnReader)
          → IsReady r
          → r.map ≡ s.reader.map
          → length (rest r) ≤ length (rest s.reader)
          → 0 < r.cursor
      onward r ready kept less = omega (
        arith,
        h.past_header,
        h.ready.inside,
        ready.inside,
        ap length kept,
        length-drop r.cursor r.map,
        length-drop s.reader.cursor s.reader.map,
      )

      still_Serves :
          (e : Option Event) (r : MmapDbnReader)
          → Delivers (rest s.reader) s.reader.stats (answer e r)
          → IsReady r
          → r.map ≡ s.reader.map
          → 0 < r.cursor
          → Serves w (answered s (e, r))
      still_Serves none r given ready kept past = record {
        views = h.views ∙ sym kept;
        all_bytes = kept ∙ h.all_bytes;
        fits = rw kept h.fits;
        ready = ready;
        past_header = past;
        owes = answered-Owes s none r h.owes refl h.owes.yields given;
      }
      still_Serves (some x) r given ready kept past = record {
        views = h.views ∙ sym kept;
        all_bytes = kept ∙ h.all_bytes;
        fits = rw kept h.fits;
        ready = ready;
        past_header = past;
        owes = answered-Owes s (some x) r h.owes refl h.owes.yields given;
      }
