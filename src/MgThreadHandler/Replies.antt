-- ===== src/MgThreadHandler/Replies.antt =====
-- `begin_request` of src/mg_thread_handler.cc: the reply to a request.
use high_dimensional_flow_re.Base.{
  ℕ, ◌-◌, ◌≡◌, ◌≢◌, refl, ap, ◌∙◌, false, none, some, List, [], ◌∷◌, ◌++◌, append-nil, arith, ◌==◌,
  length, replicate, All,
}
use high_dimensional_flow_re.Base.Ints.{ℤ}
use high_dimensional_flow_re.Base.Maps.{same}
use high_dimensional_flow_re.Base.Text.{codes}
use high_dimensional_flow_re.Numbers.{Numbers}
use high_dimensional_flow_re.Param.{Param}
use high_dimensional_flow_re.Index.{Index}
use high_dimensional_flow_re.QueryParser.{Json, get_err_msg}
use high_dimensional_flow_re.RequestHandler.Process.{RequestHandler, request_buffer_size}
use high_dimensional_flow_re.MgThreadHandler.{
  Web, Reply, c_string, reply_error, reply_json, begin_request,
}
use high_dimensional_flow_re.MgThreadHandler.Receive.{Receives, received}

c_string-endless : (chars : List ℕ) → All (λ c. c ≢ 0) chars → c_string chars ≡ none
unfolding c_string
c_string-endless [] h = refl
c_string-endless (c ∷ chars) h =
    let shown : (c == 0) ≡ false = ground (arith, h.0) in
    rw (c_string, shown, c_string-endless chars h.1) refl

module _ (web : Web) (d : Numbers) (json : Json d)
    (write : d.Double → d.Double → d.Double → d.Double → d.Double → List ℕ)
    (write_error : List ℕ → List ℕ) (query : List ℕ → ℤ) (index : Index) (param : Param d) where
  open web use {Conn, mg_read}

  -- The reply to a request whose parse gave a code, where `text` is the answer of `Process`.
  pub record IsReply (code : ℕ) (text : List ℕ) (reply : Reply) : Type 0 where
    pub answered : code ≡ 0 → reply ≡ reply_json web d json write write_error text
    pub refused :
        code ≢ 0
        → (msg : List ℕ) × (get_err_msg code ≡ some msg)
          × (reply ≡ reply_error web d json write write_error msg)

  -- A request whose content fills the buffer, with no byte 0, has no reply that C++ defines: the
  -- text handed to `Parse` has no end in the buffer.
  pub begin_request-none :
      (method : List ℕ) (handler : RequestHandler d) {conn conn' : Conn} {content : List ℕ}
      → same method (codes "GET") ≡ false
      → Receives web request_buffer_size conn 0 content conn'
      → length content ≡ request_buffer_size
      → All (λ c. c ≢ 0) content
      → begin_request web d json write write_error query index param method conn handler ≡ none
  unfolding begin_request
  begin_request-none method handler {conn} {conn'} {content} other reads full shown =
      let size = request_buffer_size in
      let got = received web size reads (omega (arith, full)) in
      let bare : content ++ replicate {A = ℕ} 0 0 ≡ content =
        unfold replicate in append-nil content in
      let left : size - length content ≡ 0 = omega (arith, full) in
      let text : c_string (content ++ replicate (size - length content) 0) ≡ none =
        ap (λ n. c_string (content ++ replicate n 0)) left
        ∙ ap c_string bare
        ∙ c_string-endless content shown in
      rw (other, got, text) refl
