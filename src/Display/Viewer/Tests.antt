-- ===== src/Display/Viewer/Tests.antt =====
-- Runs of the viewer and of the fingerprints on small payloads.
use kiosk_screen.Prelude.{refl, inl, none, List, [], ◌∷◌}
use kiosk_screen.Display.Samples.{first_item, sample_ads, sample_content, sample_viewer}
use kiosk_screen.Display.Viewer.Modes.{
  StreamEvent, show_content, show_ads, show_iframe, view_all, HasModeIframe, view_all-HasModeIframe,
}

abbrev sample_stream : List StreamEvent
sample_stream =
    show_content (sample_content first_item)
    ∷ show_iframe (record {
      command_id = "cmd-3";
      iframe = record {
        id = "i";
        title = none;
        url = "https://example.org";
        scale_x = none;
        scale_y = none;
      };
      reason = "mode";
    })
    ∷ show_ads sample_ads
    ∷ []

view_all-HasModeIframe_example : HasModeIframe (view_all sample_viewer sample_stream)
view_all-HasModeIframe_example = view_all-HasModeIframe sample_viewer sample_stream (inl refl)
