-- ===== src/Tests/Pages.antt =====
-- A source with two pages of one row each.
use raiz_confidential_stack.Prelude.{
  pos, Text, codes, true, some, [], ◌∷◌, ok, suc, ◌≡◌, refl, arith, if◌then◌else◌, same_text, trim,
  starts_with,
}
use raiz_confidential_stack.Values
use raiz_confidential_stack.Values.{Value, Values, Num, truthy, member}
use raiz_confidential_stack.Vendor.{Vendor, Event, Response, PageRequest}
use raiz_confidential_stack.Shim.Events.Raw.{parse_raw_event}
use raiz_confidential_stack.Shim.Events.Pages.{Source, Fetching, with_slash, fetch_events_from_url}
use raiz_confidential_stack.Shim.Events.Pages.Served.{fetch_events_from_url-Serves}
use raiz_confidential_stack.Shim.Events.Pages.History.{
  IsDirectory, Cursor, start, behind, IsAbsent, IsEnd, Yields, PageAt, Serves,
}
use raiz_confidential_stack.Shim.Codec.{big_of_text, read_big_int}
use raiz_confidential_stack.Tests.Demo.{demo, param, place}

abbrev row : Value
row = Value.obj (
    param (codes "topic") (Value.arr (Values.cons (Value.str (codes "t")) Values.nil))
      Values.Fields.end)

abbrev rows : Values
rows = Values.cons row Values.nil

abbrev next_cursor : Value
next_cursor = Value.str (codes "c")

abbrev page_with : Value → Value
page_with cursor = Value.obj (
    param (codes "latestLedger") (Value.num (Num.whole (pos 9)))
      (param (codes "events") (Value.arr rows) (param (codes "cursor") cursor Values.Fields.end)))

abbrev page_of : Text → Value
page_of [] = page_with next_cursor
page_of _ = page_with Value.undefined

abbrev answer : PageRequest → Response
answer r = record {
  status = 200;
  succeeded = true;
  body = if truthy r.cursor then codes "2" else [];
}

-- The demo's vendor in front of this source.
abbrev paged : Vendor
paged = record demo { fetch_page = λ r n. (ok (answer r), suc n); json_parse = λ s. ok (page_of s) }

abbrev two_pages : Source
two_pages = record {
  base_url = codes "https://memory/";
  contract_id = codes "token";
  start_ledger = some 1;
  source = [];
  page_limit = 1;
}

abbrev directory : Text
directory = codes "https://memory/"

is_directory : IsDirectory two_pages.base_url directory
is_directory = IsDirectory.as_it_is (codes "https://memory")

abbrev first_cursor : Cursor
first_cursor = behind b'c' []

first_page : PageAt paged two_pages directory start rows next_cursor (Event.other (place 1) [] ∷ [])
unfolding with_slash parse_raw_event truthy member same_text trim big_of_text read_big_int
    starts_with
first_page = record {
  response = record { status = 200; succeeded = true; body = [] };
  page = page_with next_cursor;
  latest = Value.num (Num.whole (pos 9));
  oldest = Value.undefined;
  served = λ w. refl;
  succeeded = refl;
  is_json = refl;
  no_error = refl;
  has_latest = refl;
  has_oldest = refl;
  has_events = refl;
  has_cursor = refl;
  yields = Yields.taken (Event.other (place 1) []) refl Yields.no_rows;
}

second_page :
    PageAt paged two_pages directory first_cursor rows Value.undefined
      (Event.other (place 1) [] ∷ [])
unfolding with_slash parse_raw_event truthy member same_text trim big_of_text read_big_int
    starts_with
second_page = record {
  response = record { status = 200; succeeded = true; body = codes "2" };
  page = page_with Value.undefined;
  latest = Value.num (Num.whole (pos 9));
  oldest = Value.undefined;
  served = λ w. refl;
  succeeded = refl;
  is_json = refl;
  no_error = refl;
  has_latest = refl;
  has_oldest = refl;
  has_events = refl;
  has_cursor = refl;
  yields = Yields.taken (Event.other (place 1) []) refl Yields.no_rows;
}

both_pages :
    Serves paged two_pages directory start 2
      (Event.other (place 1) [] ∷ Event.other (place 1) [] ∷ [])
unfolding Values.length
both_pages =
    Serves.full_page b'c' [] first_page (omega arith) (λ h. cc h)
      (Serves.last_page second_page (IsEnd.nothing_behind IsAbsent.no_member))

fetch_events_from_url-Serves_example :
    (end : Fetching paged) × ((fetch_events_from_url paged two_pages 0).0 ≡ ok end)
    × (end.out ≡ Event.other (place 1) [] ∷ Event.other (place 1) [] ∷ [])
    × (end.pages ≡ 2)
fetch_events_from_url-Serves_example =
    fetch_events_from_url-Serves paged two_pages directory 0 is_directory both_pages (omega arith)
