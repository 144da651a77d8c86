-- ===== src/Sources/Senate.antt =====
-- src/congress_collector/sources/senate.py: the session with the Senate's search, its pages of results
-- and the entries that are read from them. What the site answers is an argument.
pub mod Pages
pub mod Opening
use evnt_trden_public.Base.{
  ℕ, zero, suc, ◌+◌, ◌*◌, Bool, true, false, ◌||◌, Option, none, some, ◌>>=◌, List, [], ◌∷◌, ◌++◌,
  ltb, ◌==◌, if◌then◌else◌, Text, codes, text_eq, strip, is_empty, is_digit, is_space, length,
}
use evnt_trden_public.Base.Calendar.{Date}
use evnt_trden_public.Base.Regex.{
  Regex, Class, Cursor, one, rep, either, nothing, group, ◌⊙◌, is_code, star, plus, word,
  find_match, group_of,
}
use evnt_trden_public.Parsers.SenatePtr.{read_us_date}

abbrev pub page_size : ℕ
page_size = 100

abbrev pub max_session_attempts : ℕ
max_session_attempts = 3

pub record SenateIndexEntry : Type 0 where
  pub report_uuid : Text
  pub first_name : Text
  pub last_name : Text
  pub is_electronic : Bool
  pub filed_date : Option Date

unfoldable pub filing_id_for : Text → Text
filing_id_for report_uuid = codes "senate:" ++ report_uuid

unfoldable pub filer_name_for : SenateIndexEntry → Text
filer_name_for entry = strip (entry.first_name ++ b' ' ∷ entry.last_name)

unfoldable pub view_url_for : Text → Bool → Text
view_url_for report_uuid is_electronic =
    codes "https://efdsearch.senate.gov/search/view/"
    ++ ((if is_electronic then codes "ptr" else codes "paper") ++ b'/' ∷ (report_uuid ++ b'/' ∷ []))

unfoldable pub ptr_url_for : Text → Text
unfolding view_url_for
ptr_url_for report_uuid = view_url_for report_uuid true

-- `[0-9a-f-]`
abbrev pub is_uuid_code : Class
is_uuid_code c =
    is_digit c
    || c == b'a'
    || c == b'b'
    || c == b'c'
    || c == b'd'
    || c == b'e'
    || c == b'f'
    || c == b'-'

abbrev not_closing : Class
not_closing c = if c == b'>' then false else true

abbrev digits : ℕ → Regex
digits n = rep is_digit n (some n)

-- `(?:\s*\(Amendment \d+\))?`
abbrev amendment_part : Regex
amendment_part =
    either (star is_space ⊙ word (codes "(Amendment ") ⊙ plus is_digit ⊙ one (is_code b')')) nothing

-- Groups 1 and 2 are `kind` and `uuid`.
abbrev link_re : Regex
link_re =
    word (codes "<a href=\"/search/view/")
    ⊙ group 1 (either (word (codes "ptr")) (word (codes "paper")))
    ⊙ one (is_code b'/')
    ⊙ group 2 (rep is_uuid_code 36 (some 36))
    ⊙ word (codes "/\"")
    ⊙ star not_closing
    ⊙ word (codes ">Periodic Transaction Report for ")
    ⊙ digits 2
    ⊙ one (is_code b'/')
    ⊙ digits 2
    ⊙ one (is_code b'/')
    ⊙ digits 4
    ⊙ amendment_part
    ⊙ word (codes "</a>")

date_of_text : Text → Option (Option Date)
date_of_text t = if is_empty t then some none else (do d ← read_us_date t; some (some d))

-- `none` is the `ValueError`.
unfoldable pub parse_date : Text → Option (Option Date)
unfolding date_of_text
parse_date raw = date_of_text (strip raw)

-- A row whose link is of another kind is passed over.
unfoldable pub entry_of : Text → Text → Text → Option Cursor → Option (List SenateIndexEntry)
entry_of first_name last_name submitted none = some []
entry_of first_name last_name submitted (some m) = do
  filed ← parse_date submitted
  some (
      record {
        report_uuid = group_of 2 m;
        first_name = strip first_name;
        last_name = strip last_name;
        is_electronic = text_eq (group_of 1 m) (codes "ptr");
        filed_date = filed;
      }
      ∷ [])

-- A row is unpacked into five columns; `none` is a `ValueError`.
unfoldable pub parse_row : List Text → Option (List SenateIndexEntry)
unfolding entry_of
parse_row (first_name ∷ last_name ∷ office ∷ link_html ∷ submitted ∷ []) =
    entry_of first_name last_name submitted (find_match link_re link_html)
parse_row _ = none

unfoldable pub parse_rows : List (List Text) → Option (List SenateIndexEntry)
parse_rows [] = some []
parse_rows (row ∷ rows) = do found ← parse_row row; rest ← parse_rows rows; some (found ++ rest)

-- A result or the exception that was raised.
pub data Try (A : Type 0) : Type 0 where
  returned : A → Try A
  raised : Text → Try A

abbrev pub on_return : {A B : Type 0} → Try A → (A → Try B) → Try B
on_return (returned a) f = f a
on_return (raised message) f = raised message

-- What the search answers: an error (of HTTP, or of the connection), or the body's `result` and `data`.
pub data Answer : Type 0 where
  refused : Text → Answer
  body : Option Text → List (List Text) → Answer

raw_rows : Text → Bool → List (List Text) → Try (List (List Text))
raw_rows text ok data_rows =
    if ok then returned data_rows else raised (codes "efdsearch search returned an error: " ++ text)

is_ok : Option Text → Bool
is_ok none = false
is_ok (some result) = text_eq result (codes "ok")

module _ (search : ℕ → ℕ → Answer) (print_body : Option Text → List (List Text) → Text)
    (value_error : Text) where
  read_answer : Answer → Try (List (List Text))
  unfolding raw_rows is_ok
  read_answer (refused message) = raised message
  read_answer (body result rows) = raw_rows (print_body result rows) (is_ok result) rows

  -- `search` answers the request with this `start` and `length`.
  unfoldable pub fetch_raw_rows : ℕ → ℕ → Try (List (List Text))
  unfolding read_answer
  fetch_raw_rows start len = read_answer (search start len)

  unfoldable pub parsed : Option (List SenateIndexEntry) → Try (List SenateIndexEntry)
  parsed none = raised value_error
  parsed (some es) = returned es

  unfoldable pub fetch_ptr_page : ℕ → ℕ → Try (List SenateIndexEntry)
  unfolding fetch_raw_rows parsed
  fetch_ptr_page start len = on_return (fetch_raw_rows start len) (λ rows. parsed (parse_rows rows))

  -- One round of the loop of `fetch_ptr_index`: what a page of `count` rows gave, before what `more`,
  -- the rounds after it, find. A page that is not full is the last one.
  unfoldable pub page_round :
      ℕ
      → ℕ
      → Option (Try (List SenateIndexEntry))
      → Try (List SenateIndexEntry)
      → Option (Try (List SenateIndexEntry))
  page_round size count more (raised message) = some (raised message)
  page_round size count more (returned es) =
      if ltb count size
      then some (returned es)
      else more >>= λ later. some (on_return later (λ rest. returned (es ++ rest)))

  unfoldable pub read_page :
      ℕ
      → Option (Try (List SenateIndexEntry))
      → Try (List (List Text))
      → Option (Try (List SenateIndexEntry))
  unfolding page_round parsed
  read_page size more (raised message) = some (raised message)
  read_page size more (returned rows) =
      page_round size (length rows) more (parsed (parse_rows rows))

  -- `none` is a loop that has not ended when the fuel has.
  unfoldable pub fetch_pages : ℕ → ℕ → ℕ → Option (Try (List SenateIndexEntry))
  unfolding read_page fetch_raw_rows
  fetch_pages zero size start = none
  fetch_pages (suc fuel) size start =
      let more = fetch_pages fuel size (start + size) in
      read_page size more (fetch_raw_rows start size)

  unfoldable pub fetch_ptr_index : ℕ → ℕ → Option (Try (List SenateIndexEntry))
  unfolding fetch_pages
  fetch_ptr_index fuel size = fetch_pages fuel size 0

-- What a GET of the search's home page gives, with the `csrftoken` cookie that it sets; only a status
-- that is an error is tried again.
pub data Home : Type 0 where
  served : Option Text → Home
  status_error : Text → Home
  broken : Text → Home

-- What the POST that accepts the agreement gives: an error, or whether the session cookie is set.
pub data Accept : Type 0 where
  accepted : Bool → Accept
  not_accepted : Text → Accept

-- A session: its CSRF token.
pub record Session : Type 0 where
  pub csrf_token : Text

-- What an answer comes to, with the attempts after it by the error that they follow.
unfoldable pub or_retry : (Text → Try (Option Text)) → Home → Try (Option Text)
or_retry again (served token) = returned token
or_retry again (status_error message) = again message
or_retry again (broken message) = raised message

-- The attempts that are left, after the error of the last one.
unfoldable pub get_home : (ℕ → Home) → ℕ → ℕ → Text → Try (Option Text)
unfolding or_retry
get_home home zero attempt last_error = raised last_error
get_home home (suc left) attempt last_error =
    or_retry (λ message. get_home home left (attempt + 1) message) (home attempt)

unfoldable pub accept_agreement : Text → Accept → Try Session
accept_agreement token (not_accepted message) = raised message
accept_agreement token (accepted false) =
    raised (codes "efdsearch.senate.gov did not accept the search agreement")
accept_agreement token (accepted true) = returned (record { csrf_token = token })

unfoldable pub open_session : (Text → Accept) → Option Text → Try Session
unfolding accept_agreement
open_session accept none = raised (codes "efdsearch.senate.gov did not set a csrftoken cookie")
open_session accept (some []) = raised (codes "efdsearch.senate.gov did not set a csrftoken cookie")
open_session accept (some (c ∷ t)) = accept_agreement (c ∷ t) (accept (c ∷ t))

unfoldable pub new_session : (ℕ → Home) → (Text → Accept) → Try Session
unfolding get_home open_session
new_session home accept = on_return (get_home home max_session_attempts 0 []) (open_session accept)
