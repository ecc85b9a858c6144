-- ===== src/Background/Overlap/Results.antt =====
-- However the lookups of CHECK_VIDEOS overlap, they answer and store for each video what they do one
-- after the other.
use mathlib.Core.List
use real_tube.Prelude.{String, ◌≡◌, refl, sym, ap, ◌∙◌, Option, List, [], ◌∷◌, ◌++◌}
use real_tube.Records.{CachedVideo, VideoResult}
use real_tube.ObjectStore.{ObjectStore, get, put_all}
use real_tube.Cache.{video_key}
use real_tube.Background.{group_by_prefix}
use real_tube.Background.Grouping.{group-Hashed, group_by_prefix_lem}
use real_tube.Background.Overlap.{
  Fetch, waiting, reading, writing, Act, Lookups, OneOf, Run, begins, goes, pushed_by, written_by,
  after, starting, AllEnded, in_order,
}
use real_tube.Background.Overlap.Start.{started, starting-Apart}
use real_tube.Background.Overlap.Stored.{stored, stored_next}
use real_tube.Background.Overlap.Turns.{
  only, only-++, to_push, to_write, pushes_next, writes_next, left, Apart, left_next, Apart-next,
}

-- What the lookups have pushed and what they have still to push stay the same, video by video, and so
-- does what the cache reads once the rest is written.
module _ (answer : String → Option (List VideoResult)) (id : String) where
  abbrev yields : Lookups → List VideoResult
  yields s = only id (s.results ++ left (to_push answer) s.fetches)

  abbrev reads : Lookups → Option CachedVideo
  reads s = stored id (left (to_write answer) s.fetches) s.videos

  record Keeps (s t : Lookups) : Type 0 where
    pub yields : yields t ≡ yields s
    pub reads : reads t ≡ reads s
    pub to_push : Apart (to_push answer) t.fetches
    pub to_write : Apart (to_write answer) t.fetches

  yields_next :
      (t : Lookups) {act : Act} {fs : List Fetch}
      → OneOf answer t.fetches act fs
      → Apart (to_push answer) t.fetches
      → yields (after t act fs) ≡ yields t
  yields_next t {act} {fs} step apart =
      ap (only id) (List.append_assoc t.results (pushed_by act) (left (to_push answer) fs))
      ∙ only-++ id t.results (pushed_by act ++ left (to_push answer) fs)
      ∙ ap (λ xs. only id t.results ++ xs)
          (only-++ id (pushed_by act) (left (to_push answer) fs)
            ∙ sym (left_next answer (to_push answer) pushed_by (pushes_next answer) id step apart))
      ∙ sym (only-++ id t.results (left (to_push answer) t.fetches))

  run-Keeps :
      {s t : Lookups}
      → Run answer s t
      → Apart (to_push answer) s.fetches
      → Apart (to_write answer) s.fetches
      → Keeps s t
  run-Keeps begins push write = record {
    yields = refl;
    reads = refl;
    to_push = push;
    to_write = write;
  }
  run-Keeps (goes {t} {act} {fetches} run step) push write =
      let h = run-Keeps run push write in
      record {
        yields = yields_next t step h.to_push ∙ h.yields;
        reads =
            stored_next id act (left (to_write answer) t.fetches) (left (to_write answer) fetches)
              t.videos
              (left_next answer (to_write answer) written_by (writes_next answer) id step
                h.to_write)
            ∙ h.reads;
        to_push = Apart-next answer (to_push answer) pushed_by (pushes_next answer) step h.to_push;
        to_write =
            Apart-next answer (to_write answer) written_by (writes_next answer) step h.to_write;
      }

-- lookups that have ended have nothing left
ended :
    (answer : String → Option (List VideoResult)) (fs : List Fetch)
    → AllEnded fs
    → (left (to_push answer) fs ≡ []) × (left (to_write answer) fs ≡ [])
ended answer [] h = (refl, refl)
ended answer (reading [] ∷ fs) h = ended answer fs h
ended answer (reading (v ∷ vs) ∷ fs) h = absurd h
ended answer (waiting prefix ids ∷ fs) h = absurd h
ended answer (writing v vs ∷ fs) h = absurd h

-- However the lookups of CHECK_VIDEOS overlap, once all have ended each video has the results that it
-- would have if they ran one after the other, in the same order, and the cache reads for each video
-- what it would read. `answer` is what the lookup of each prefix comes to, or that it fails.
pub overlap_lem :
    (answer : String → Option (List VideoResult)) (hash : String → String) (ids : List String)
    (videos : ObjectStore CachedVideo) (t : Lookups)
    → Run answer (starting (group_by_prefix hash ids []) videos) t
    → AllEnded t.fetches
    → (id : String)
    → (only id t.results ≡ only id (in_order answer (group_by_prefix hash ids [])))
      × (get video_key id t.videos
          ≡ stored id (in_order answer (group_by_prefix hash ids [])) videos)
unfolding put_all
overlap_lem answer hash ids videos t run end id =
    let groups = group_by_prefix hash ids [] in
    let m = (group_by_prefix_lem hash ids).0 in
    let h = group-Hashed hash ids [] tt in
    let kept =
      run-Keeps answer id run
        (starting-Apart answer (to_push answer) (λ prefix ids. refl) hash groups m h)
        (starting-Apart answer (to_write answer) (λ prefix ids. refl) hash groups m h) in
    let (pushed, written) = ended answer t.fetches end in
    (
      sym (ap (only id) (List.append-nil t.results))
          ∙ ap (λ xs. only id (t.results ++ xs)) (sym pushed)
          ∙ kept.yields
          ∙ ap (only id) (started answer (to_push answer) (λ prefix ids. refl) groups),
      ap (λ xs. stored id xs t.videos) (sym written)
          ∙ kept.reads
          ∙ ap (λ xs. stored id xs videos)
              (started answer (to_write answer) (λ prefix ids. refl) groups),
    )
