-- ===== src/Admin/ContentList.antt =====
-- The page of the contents: `ContentListComponent` of
-- frontend/src/app/features/content/content-list.component.ts, without its template. The
-- confirmation dialogs and the subscriptions to the facade that wait are kept in lists.
pub mod Selection
pub mod Drop
mod Tests
use kiosk_screen.Prelude.{
  ℕ, ◌+◌, ◌-◌, String, Bool, true, false, not, ◌&&◌, ◌||◌, Option, none, some, List, [], ◌∷◌, ◌++◌,
  ltb, ◌==◌, if◌then◌else◌, is_some, or_default, length, get_elem?, filter, any, JsSet, set_has,
  set_add, set_delete, remove_at,
}
use kiosk_screen.Admin.Catalog.{ids_of}
use kiosk_screen.Admin.Facade.{remove, remove_many}
use kiosk_screen.Admin.Content.{
  content_listed, ContentItem, ContentFacade, initial_facade, set_active_many,
}
use kiosk_screen.Admin.Pages.{
  ClientPageSize, twenty, rows_of, slice_page, page_count, clamp_page_index, write_page_size,
}

-- What a dialog asks about.
pub data Question : Type 0 where
  remove_these : List String → Question
  activate_these : List ContentItem → Bool → Question
  remove_this : ContentItem → Question

pub record ContentList : Type 0 where
  pub facade : ContentFacade
  pub selection : JsSet
  pub novelty_filter_only : Bool
  pub page_size : ClientPageSize
  pub page_index : ℕ
  pub stored_size : Option (Option String)
  pub questions : List Question
  pub drag_deferred : Bool

abbrev pub initial_list : ContentList
initial_list = record {
  facade = initial_facade;
  selection = [];
  novelty_filter_only = false;
  page_size = twenty;
  page_index = 0;
  stored_size = none;
  questions = [];
  drag_deferred = false;
}

unfoldable pub filtered_items : ContentList → List ContentItem
filtered_items p =
    if p.novelty_filter_only
    then filter (λ (x : ContentItem). or_default x.is_novelty false) p.facade.items
    else p.facade.items

abbrev pub filtered_total : ContentList → ℕ
filtered_total p = length (filtered_items p)

abbrev pub rows : ContentList → List ContentItem
rows p = slice_page (filtered_items p) p.page_index p.page_size

abbrev pub shows_all : ClientPageSize → Bool
shows_all size = not (is_some (rows_of size))

unfoldable pub reorder_enabled : ContentList → Bool
reorder_enabled p = shows_all p.page_size && not p.novelty_filter_only

-- `items.every((item) => selected.has(item.id))`
abbrev pub every_selected : JsSet → List ContentItem → Bool
every_selected s [] = true
every_selected s (x ∷ xs) = set_has s x.id && every_selected s xs

unfoldable pub all_checked : ContentList → Bool
all_checked p = not (length (rows p) == 0) && every_selected p.selection (rows p)

unfoldable pub some_checked : ContentList → Bool
unfolding all_checked
some_checked p =
    not (length (rows p) == 0)
    && any (λ (x : ContentItem). set_has p.selection x.id) (rows p)
    && not (all_checked p)

unfoldable pub list_empty : ContentList → Bool
list_empty p =
    not (p.facade.loading || is_some p.facade.error)
    && (length p.facade.items == 0 || (p.novelty_filter_only && filtered_total p == 0))

-- The effect of the constructor.
unfoldable pub settle_page : ContentList → ContentList
settle_page p = record p {
  page_index = clamp_page_index p.page_index (filtered_total p) p.page_size;
}

unfoldable pub clear_selection : ContentList → ContentList
clear_selection p = record p { selection = [] }

unfoldable pub can_go_previous : ContentList → Bool
can_go_previous p = ltb 0 p.page_index

unfoldable pub can_go_next : ContentList → Bool
can_go_next p =
    not (shows_all p.page_size)
    && ltb (p.page_index + 1) (page_count (filtered_total p) p.page_size)

unfoldable pub go_to_previous_page : ContentList → ContentList
unfolding clear_selection can_go_previous
go_to_previous_page p =
    if can_go_previous p then record (clear_selection p) { page_index = p.page_index - 1 } else p

unfoldable pub go_to_next_page : ContentList → ContentList
unfolding clear_selection can_go_next
go_to_next_page p =
    if can_go_next p then record (clear_selection p) { page_index = p.page_index + 1 } else p

unfoldable pub on_page_size_change : ClientPageSize → ContentList → ContentList
unfolding clear_selection
on_page_size_change size p = record (clear_selection p) {
  page_size = size;
  stored_size = write_page_size size p.stored_size;
  page_index = 0;
}

unfoldable pub on_novelty_filter_change : Bool → ContentList → ContentList
unfolding clear_selection
on_novelty_filter_change checked p = record (clear_selection p) {
  novelty_filter_only = checked;
  page_index = 0;
}

unfoldable pub toggle_selection : String → Bool → ContentList → ContentList
toggle_selection id checked p = record p {
  selection = if checked then set_add p.selection id else set_delete p.selection id;
}

-- `new Set(ids)`, added to `s`
abbrev pub set_of : JsSet → List String → JsSet
set_of s [] = s
set_of s (k ∷ ks) = set_of (set_add s k) ks

unfoldable pub toggle_all : Bool → ContentList → ContentList
unfolding clear_selection
toggle_all checked p =
    if length (rows p) == 0
    then p
    else if checked
    then record p { selection = set_of [] (ids_of (rows p)) }
    else clear_selection p

-- The silent refresh that the server's stream asks for, when its answer is in the facade.
unfoldable pub prune_selection : ContentList → ContentList
prune_selection p = record p { selection = filter (set_has (ids_of p.facade.items)) p.selection }

abbrev pub ask : Question → ContentList → ContentList
ask q p = record p { questions = p.questions ++ q ∷ [] }

unfoldable pub remove_selected : ContentList → ContentList
remove_selected p = if length p.selection == 0 then p else ask (remove_these p.selection) p

unfoldable pub set_active_selected : Bool → ContentList → ContentList
set_active_selected is_active p =
    let items = filter (λ (x : ContentItem). set_has p.selection x.id) p.facade.items in
    if length p.selection == 0
    then p
    else if length items == 0
    then p
    else ask (activate_these items is_active) p

unfoldable pub ask_to_remove : ContentItem → ContentList → ContentList
ask_to_remove item p = ask (remove_this item) p

abbrev pub confirmed : Question → ContentFacade → ContentFacade
confirmed (remove_these ids) f = remove_many ids f
confirmed (activate_these items is_active) f = set_active_many items is_active f
confirmed (remove_this item) f = remove item.id f

-- The dialog at place i is closed.
unfoldable pub dialog_closed : ℕ → Bool → ContentList → ContentList
dialog_closed i yes_said p = elim (get_elem? p.questions i) [
  | none ↦ p
  | some q ↦
      let rest = record p { questions = remove_at i p.questions } in
      if yes_said then record rest { facade = confirmed q p.facade } else rest
]
