-- ===== src/MgThreadHandler.antt =====
-- src/mg_thread_handler.cc: from a request of the web server to its reply.
pub mod Receive
pub mod Replies
use high_dimensional_flow_re.Base.{
  ℕ, zero, suc, ◌+◌, ◌-◌, ◌≤◌, ◌≡◌, Bool, true, false, Option, none, some, List, [], ◌∷◌, ◌++◌,
  ◌==◌, if◌then◌else◌, ◌>>=◌, length, replicate,
}
use high_dimensional_flow_re.Base.Ints.{ℤ, pos, negsuc}
use high_dimensional_flow_re.Base.Maps.{same}
use high_dimensional_flow_re.Base.Text.{codes}
use high_dimensional_flow_re.Base.Seek.{overwrite}
use high_dimensional_flow_re.Numbers.{Numbers}
use high_dimensional_flow_re.Param.{Param}
use high_dimensional_flow_re.Index.{Index}
use high_dimensional_flow_re.QueryParser.{Json, QueryData, parse_query, get_err_msg}
use high_dimensional_flow_re.RequestHandler.Process.{
  RequestHandler, Ended, exited, done, process, request_buffer_size,
}

-- What the handler uses of the web server: for a buffer of a size, what `mg_read` returns, and the
-- bytes that it puts into the buffer, which it may do too where it returns 0 or less.
pub record Web : Type 1 where
  pub Conn : Type 0
  pub mg_read : Conn → ℕ → ℤ × List ℕ × Conn

-- A buffer is not overrun, and a result above 0 is the number of bytes put into it.
pub record IsReader (web : Web) : Type 0 where
  pub bounded : (conn : web.Conn) (n : ℕ) → length (web.mg_read conn n).1 ≤ n
  pub counted :
      (conn : web.Conn) (n k : ℕ)
      → (web.mg_read conn n).0 ≡ pos (suc k)
      → length (web.mg_read conn n).1 ≡ suc k

-- The arguments of `mg_printf`.
pub record Reply : Type 0 where
  pub status : List ℕ
  pub content_length : ℕ
  pub body : List ℕ

-- A string with `"%s\n"` and its length.
abbrev pub reply_with : List ℕ → List ℕ → Reply
reply_with status res = record {
  status = status;
  content_length = length res;
  body = res ++ (b'\n' ∷ []);
}

-- The string that starts at a pointer; `none` is a read behind the buffer.
unfoldable pub c_string : List ℕ → Option (List ℕ)
c_string [] = none
c_string (c ∷ buf) =
    let rest = c_string buf in if c == 0 then some [] else (rest >>= λ chars. some (c ∷ chars))

module _ (web : Web) where
  open web use {Conn, mg_read}

  -- The body of the loop after the read, and the rest of the loop.
  abbrev pub store_read :
      (Conn → ℕ → List ℕ → Option (List ℕ × Conn))
      → ℕ
      → List ℕ
      → ℤ × List ℕ × Conn
      → Option (List ℕ × Conn)
  store_read rest place buf (pos zero, bytes, conn) = some (overwrite place bytes buf, conn)
  store_read rest place buf (pos (suc k), bytes, conn) =
      rest conn (place + suc k) (overwrite place bytes buf)
  store_read rest place buf (negsuc k, bytes, conn) = some (overwrite place bytes buf, conn)

  -- The loop of `begin_request` over the reads into a buffer of `total` bytes, of which `place` are
  -- filled; `none` is the end of the fuel.
  unfoldable pub receive : (total fuel : ℕ) → Conn → (place : ℕ) → List ℕ → Option (List ℕ × Conn)
  receive total zero conn place buf = none
  receive total (suc fuel) conn place buf =
      store_read (receive total fuel) place buf (mg_read conn (total - place))

  module _ (d : Numbers) (json : Json d)
      (write : d.Double → d.Double → d.Double → d.Double → d.Double → List ℕ)
      (write_error : List ℕ → List ℕ) where
    -- How a request ends: with the program, or with a reply.
    pub data Served : Type 0 where
      ended : Served
      replied : Reply → RequestHandler d → Conn → Served

    -- `RESPONSE_ERROR`: `write_error` is the text of the JSON value with the code 404 and a message.
    abbrev pub reply_error : List ℕ → Reply
    reply_error err = reply_with (codes "HTTP/1.1 200 ") (write_error err)

    abbrev pub reply_json : List ℕ → Reply
    reply_json json_result = reply_with (codes "HTTP/1.1 200 OK") json_result

    abbrev pub new_query : QueryData
    new_query = record {
      price = pos 0;
      bid_type = pos 0;
      advert_type = pos 0;
      platform = pos 0;
      hours = [];
      targetings = [];
      psids = [];
    }

    -- `query`, `index` and `param` are what the shared memory holds.
    module _ (query : List ℕ → ℤ) (index : Index) (param : Param d) where
      -- After `Process`.
      abbrev pub send : Conn → Ended d → Served
      send conn exited = ended
      send conn (done h) = replied (reply_json h.json_str) h conn

      -- After `Parse`.
      abbrev pub respond : RequestHandler d → Conn → ℕ × QueryData → Option Served
      respond h conn (zero, qd) =
          process d write query index param qd h >>= λ result. some (send conn result)
      respond h conn (suc code, qd) =
          get_err_msg (suc code) >>= λ msg. some (replied (reply_error msg) h conn)

      unfoldable pub begin_request : List ℕ → Conn → RequestHandler d → Option Served
      begin_request method conn handler =
          let h = record handler { request_buf = replicate request_buffer_size 0 } in
          if same method (codes "GET")
          then some (replied (reply_error (codes "not support HTTP GET method!")) h conn)
          else (receive request_buffer_size (suc request_buffer_size) conn 0 h.request_buf
              >>= λ (buf, conn'). c_string buf >>= λ text.
                  parse_query d json text new_query
                  >>= respond (record h { request_buf = buf }) conn')
