-- ===== src/Http/Sample.antt =====
-- A server for the tests of the sources: it answers every request from its path, over a world that
-- keeps the data that was sent. The texts "1" and "2" are times.
use ibdm.Base.{ℕ, pos, String, none, some, List, [], ◌∷◌, Result, ok, ◌==◌, if◌then◌else◌}
use ibdm.Value.{Fields}
use ibdm.Source.{Data}
use ibdm.Http.{Web, Request, Response, concat}

abbrev pub answer : ℕ → String → Result Response
answer status body = ok (record {
  status = status;
  header = λ name. if name == "x-total-pages" then "1" else "";
  body = body;
})

abbrev pub sample_web :
    (Request → Result Response)
    → (String → Result Fields)
    → (String → Result (List Fields))
    → Web (List Data)
sample_web respond decode_object decode_objects = record {
  parse_url = λ url. none;
  new_request = λ req. none;
  send_request = λ req sent. (respond req, sent);
  parse_query = λ query. ok [];
  read_all = λ body. ok body;
  escape = λ s. s;
  basic_auth = λ name password. concat name (concat ":" password);
  user_agent = "ibdm/test";
  ctx_err = λ sent. none;
  now = λ sent. 9;
  parse_time = λ s. if s == "1" then some 1 else if s == "2" then some 2 else none;
  results = λ d sent. d ∷ sent;
  decode_object = decode_object;
  decode_objects = decode_objects;
  int_of = λ bits. pos bits;
}
