-- ===== src/Display/Viewer/Errors.antt =====
-- Reports of playback errors.
use kiosk_screen.Prelude.{
  ◌+◌, ◌≤◌, String, ◌≡◌, refl, ap, ◌∙◌, ◌⊎◌, inl, inr, some, List, [], ◌∷◌, arith, eq_refl, length,
  length-append,
}
use kiosk_screen.Display.Item.{DisplayContentItem}
use kiosk_screen.Display.Viewer.{
  Viewer, media_error, report_media_error, on_video_playback_error, text_of,
}

-- Errors of one command, by the items that they name.
abbrev pub playback_errors : List DisplayContentItem → String → Viewer → Viewer
playback_errors [] id v = v
playback_errors (item ∷ items) id v = playback_errors items id (on_video_playback_error item id v)

reported_ignored :
    (item : DisplayContentItem) (id : String) (v : Viewer)
    → v.reported_video_error_command_id ≡ some id
    → on_video_playback_error item id v ≡ v
unfolding on_video_playback_error
reported_ignored item id v h = ground (arith, eq_refl id)

playback_errors_ignored :
    (items : List DisplayContentItem) (id : String) (v : Viewer)
    → v.reported_video_error_command_id ≡ some id
    → playback_errors items id v ≡ v
playback_errors_ignored [] id v h = refl
playback_errors_ignored (item ∷ items) id v h =
    let same = reported_ignored item id v h in
    ap (playback_errors items id) same ∙ playback_errors_ignored items id v h

one_error :
    (item : DisplayContentItem) (id : String) (v : Viewer)
    → (on_video_playback_error item id v ≡ v)
      ⊎ (((on_video_playback_error item id v).reported_video_error_command_id ≡ some id)
          × (length (on_video_playback_error item id v).posts ≤ length v.posts + 1))
unfolding on_video_playback_error report_media_error
one_error item id v =
    ground
      (arith, eq_refl id, length-append v.posts (media_error (text_of v.kiosk_id) id item.id ∷ []))

-- However many playback errors in a row name one command, for whatever items, at most one report
-- is sent.
pub playback_errors_post_once :
    (items : List DisplayContentItem) (id : String) (v : Viewer)
    → length (playback_errors items id v).posts ≤ length v.posts + 1
playback_errors_post_once [] id v = omega arith
playback_errors_post_once (item ∷ items) id v = elim (one_error item id v) [
  | inl same ↦ omega (
    arith,
    playback_errors_post_once items id v,
    ap (λ (t : Viewer). length (playback_errors items id t).posts) same,
  )
  | inr (reported, bound) ↦ omega (
    arith,
    ap (λ (t : Viewer). length t.posts)
        (playback_errors_ignored items id (on_video_playback_error item id v) reported),
  )
]
