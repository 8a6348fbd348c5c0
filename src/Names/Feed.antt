-- ===== src/Names/Feed.antt =====
-- crates/names/src/feed.rs: the request of the rename feed. Sending it is a function over the world,
-- and so is all that reading the answer comes to; the error is the text that is shown.
use common_rust.Prelude.{
  ℕ, Bool, ◌&&◌, Option, none, some, List, [], ◌∷◌, ◌++◌, ◌==◌, nat_eq, leb, ltb, if◌then◌else◌,
}
use common_rust.Prelude.Result.{Result, ok, err}
use common_rust.Prelude.Text.{Text, codes, trim_end_matches}
use common_rust.Names.Deltas.{NameDeltas}
use common_rust.Names.Sync.{Feed}

pub record NameFeed : Type 0 where
  pub base_url : Text
  pub token : Text

abbrev is_slash : ℕ → Bool
is_slash c = c == b'/'

-- `NameFeed::with_client`
unfoldable pub with_client : Text → Text → NameFeed
unfolding trim_end_matches
with_client base_url token = record { base_url = trim_end_matches is_slash base_url; token = token }

pub record Request : Type 0 where
  pub url : Text
  pub authorization : Text
  pub query : List (Text × Text)

-- An answer: its status and how that is shown, its text if it can be read, and what its JSON reads
-- as.
pub record Reply : Type 0 where
  pub status : ℕ
  pub shown : Text
  pub text : Result Text Text
  pub json : Result Text NameDeltas

abbrev since_query : Option Text → List (Text × Text)
since_query none = []
since_query (some since) = (codes "since", since) ∷ []

abbrev pub request_of : NameFeed → Option Text → Request
request_of feed since = record {
  url = feed.base_url ++ codes "/api/v3/forest_school/name_changes/";
  authorization = codes "Bearer " ++ feed.token;
  query = since_query since;
}

abbrev text_or_empty : Result Text Text → Text
text_or_empty (ok t) = t
text_or_empty (err _) = []

abbrev payload : Result Text NameDeltas → Result Text NameDeltas
payload (ok d) = ok d
payload (err e) = err (codes "name feed returned an invalid payload: " ++ e)

abbrev answered : Text → Result Text Reply → Result Text NameDeltas
answered url (err e) = err (codes "name feed unreachable (" ++ (url ++ (codes "): " ++ e)))
answered url (ok reply) =
    if leb 200 reply.status && ltb reply.status 300
    then payload reply.json
    else err
        (codes "name feed returned " ++ (reply.shown ++ (codes ": " ++ text_or_empty reply.text)))

unfoldable pub changes_since :
    {W : Type 0}
    → (Request → W → Result Text Reply × W)
    → NameFeed
    → Option Text
    → W
    → Result Text NameDeltas × W
changes_since send feed since w =
    let (reply, w') = send (request_of feed since) w in
    (answered (request_of feed since).url reply, w')

-- The feed that the background loop is given.
abbrev pub over_http : {W : Type 0} → (Request → W → Result Text Reply × W) → NameFeed → Feed W
over_http send feed = record { changes_since = changes_since send feed }
