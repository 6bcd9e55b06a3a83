-- ===== src/Http/Clients.antt =====
-- `make_client` of src/argus/common/http.py, and the HTTP clients that src/argus/sec_poller/edgar.py,
-- src/argus/rss_poller/main.py, src/argus/llm/deepseek.py and src/argus/llm/gemini.py open with it. Times are in
-- milliseconds. Of the headers, only those that the source gives: httpx adds its own for other names.
use argus_core.Common.{ℕ, ◌≡◌, ◌≢◌, refl, Bool, true, [], ◌∷◌, ◌++◌, Option, none, some}
use argus_core.Common.Text.{Text, codes}
use argus_core.Config.{Dict, set}

pub record Client : Type 0 where
  pub timeout : ℕ
  pub connect : ℕ
  pub retries : ℕ
  pub http2 : Bool
  pub max_connections : ℕ
  pub max_keepalive_connections : ℕ
  pub follow_redirects : Bool
  pub headers : Dict Text

-- `{"User-Agent": user_agent} if user_agent else None`: an empty text counts as none.
agent_headers : Option Text → Dict Text
agent_headers none = []
agent_headers (some []) = []
agent_headers (some (c ∷ cs)) = (codes "User-Agent", c ∷ cs) ∷ []

pub make_client : ℕ → Option Text → Client
unfolding agent_headers
make_client timeout user_agent = record {
  timeout = timeout;
  connect = 10000;
  retries = 3;
  http2 = true;
  max_connections = 20;
  max_keepalive_connections = 10;
  follow_redirects = true;
  headers = agent_headers user_agent;
}

abbrev pub default_timeout : ℕ
default_timeout = 30000

-- `client.headers[name] = value`.
pub with_header : Text → Text → Client → Client
with_header name value c = record c { headers = set name value c.headers }

-- The client of `EdgarClient`, and the one of the RSS poller.
pub edgar_client : Text → Client
unfolding make_client with_header
edgar_client user_agent =
    with_header (codes "User-Agent") user_agent (make_client default_timeout none)

pub feed_client : Text → Client
unfolding make_client
feed_client user_agent = make_client default_timeout (some user_agent)

-- The clients of both providers, with the key of the API.
pub deepseek_client : Text → Client
unfolding make_client with_header
deepseek_client api_key =
    with_header (codes "Authorization") (codes "Bearer " ++ api_key)
      (make_client default_timeout none)

pub gemini_client : Text → Client
unfolding make_client with_header
gemini_client api_key =
    with_header (codes "x-goog-api-key") api_key (make_client default_timeout none)

-- Both pollers open the same client, with the user agent of the settings, unless that is empty.
pub pollers_agree :
    (user_agent : Text) → user_agent ≢ [] → edgar_client user_agent ≡ feed_client user_agent
unfolding edgar_client feed_client make_client with_header agent_headers set
pollers_agree [] h = absurd (h refl)
pollers_agree (c ∷ cs) h = refl
