-- ===== src/Server/Headers.antt =====
-- `axum::http::HeaderMap` and `Method`. A header whose value is not readable as text (`to_str` fails)
-- is `none`.
use tunnelbridge.Prelude.{Bool, true, false, Option, none, some}
use tunnelbridge.Prelude.Text.{Text, text_eq}
use tunnelbridge.Prelude.Map.{Map, get}

abbrev pub Headers : Type 0
Headers = Map Text (Option Text)

-- `headers.get(name).and_then(|value| value.to_str().ok())`
unfoldable pub header : Headers → Text → Option Text
unfolding get
header headers name = elim (get headers name) [ none ↦ none | some value ↦ value ]

pub data Method : Type 0 where
  get_method head options post put patch delete : Method

-- GET, HEAD and OPTIONS.
unfoldable pub is_safe : Method → Bool
is_safe get_method = true
is_safe head = true
is_safe options = true
is_safe _ = false
