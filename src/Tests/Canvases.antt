-- ===== src/Tests/Canvases.antt =====
-- The console's drawings on a canvas without colours, where each code point takes one column.
use Prim.Native.String.{count}
use getsloth.Base.{ℕ, zero, suc, String, true, false, Option, none, some, List, [], ◌∷◌, ◌≡◌, ◌≢◌}
use getsloth.Host.Status.{Viewer}
use getsloth.Console.Canvas.{Canvas, ◌+++◌}
use getsloth.Console.History.{History}
use getsloth.Console.Screen.{Screen, view_graph, view_join}
use getsloth.Console.Join.{Memo}
use getsloth.Console.View.{view_screen, hidden_password}
use getsloth.Tests.Consoles.{snapshot_of}

-- The first runes of a text.
abbrev pub cut : ℕ → String → String
cut zero s = ""
cut (suc n) String.[] = ""
cut (suc n) (String.◌∷◌ r s) = String.◌∷◌ r (cut n s)

abbrev pub beside : List String → List String → List String
beside [] right = []
beside (l ∷ left) [] = []
beside (l ∷ left) (r ∷ right) = (l +++ r) ∷ beside left right

abbrev pub in_a_row : List (List String) → List String
in_a_row [] = []
in_a_row (b ∷ []) = b
in_a_row (b ∷ d ∷ blocks) = beside b (in_a_row (d ∷ blocks))

abbrev pub plain : Canvas
plain = record {
  render = λ tone s. s;
  width_of = count;
  truncate = λ s width tail. cut width s;
  join_horizontal = in_a_row;
  to_upper = λ s. s;
  decimal = λ n. "0";
  decimal_4 = λ n. "   0";
  words = λ s. s ∷ [];
  lines_of = λ s. s ∷ [];
  boxed = λ width lines. lines;
  bytes_of = λ s. [];
  text_of = λ bytes. "";
  text_of_rune = λ n. "#";
}

abbrev ann : Viewer
ann = record { id = "v1"; name = "ann"; is_controller = true; rtt_ms = some 40; quality = "good" }

abbrev history : History
history = ("v1", some 40 ∷ none ∷ some 300 ∷ []) ∷ []

abbrev screen : Screen
screen = record {
  snapshot = snapshot_of (ann ∷ []);
  width = 80;
  height = 30;
  show_invite = true;
  view = view_graph;
  history = history;
}

abbrev empty_memo : Memo
empty_memo = record { data_text = ""; rendered = "" }

hidden_password_example :
    let shown : String → String → String → ℕ → Memo × Option (List String) =
      λ secret url qr_url view.
        view_screen plain
          (λ url. some "##")
          (record screen {
            snapshot = record screen.snapshot {
              password = secret;
              invite_url = url;
              qr_invite_url = qr_url;
            };
            show_invite = false;
            view = view;
          })
          empty_memo
          true in
    (view_graph ≢ view_join
      → shown "secret" "url" "url&p=secret" view_graph
        ≡ shown "other" "link" "link&p=other" view_graph)
    × (shown "secret" "url" "url&p=secret" view_graph
        ≡ shown "other" "url" "url&p=secret" view_graph)
hidden_password_example =
    hidden_password plain (λ url. some "##") screen empty_memo true "secret" "other" "url" "link"
      "url&p=secret" "link&p=other"
