-- ===== src/Commands/Answers.antt =====
-- How cddb_write of lib/cddb_cmd.c takes the two answers of a server to a submission over CDDBP.
use libcddb.Submission.Room.{take-append}
use libcddb.Base.{
  length, length-append, leb, ◌<◌, ◌≡◌, ◌⊎◌, refl, sym, ap, ◌∙◌, arith, ◌||◌, Bool, true, false,
  Bool-cases, inl, inr, if◌then◌else◌, some, List, [], ◌∷◌, ◌++◌, Bytes, codes, ℤ, pos, negsuc,
  minus_one, eq_ℤ, Run, value,
}
use libcddb.Errors.{ErrorCode, ok, not_connected, rejected, unknown}
use libcddb.Disc.{Disc}
use libcddb.Response.{Answer, get_response_code}
use libcddb.Commands.{Session, sock_printf, set_errno}
use libcddb.Commands.Errno.{first_line, answer_of-Untouched}
use libcddb.Commands.Read.{Outcome, leaves, answer_of, close, close_http}
use libcddb.Commands.Write.{
  bytes_of, accepted, hung_up, refused_with, command_reply, data_reply, on_reply, send_data,
  send_text, after_command,
}

-- An outcome with this output and result.
abbrev pub Comes : Bytes → Bool → Run (Outcome Bool) → Type 0
Comes output result run =
    (o : Outcome Bool) × (run ≡ value o) × (o.session.output ≡ output) × (o.result ≡ result)

-- The answer 200 accepts the data, and no other does.
data_reply-cases :
    (code : ℤ)
    → ((eq_ℤ code (pos 200) ≡ true) × (data_reply code ≡ accepted))
      ⊎ ((eq_ℤ code (pos 200) ≡ false) × (data_reply code ≡ hung_up))
      ⊎ ((eq_ℤ code (pos 200) ≡ false)
          × ((errno : ErrorCode) × (data_reply code ≡ refused_with errno)))
unfolding data_reply
data_reply-cases code = elim (Bool-cases (eq_ℤ code (pos 200))) [
  | inl e ↦ inl (e, rw e refl)
  | inr e ↦
      inr (elim (Bool-cases (eq_ℤ code (pos 401) || eq_ℤ code (pos 500) || eq_ℤ code (pos 501))) [
        | inl f ↦ inr (e, (rejected, rw (e, f) refl))
        | inr f ↦ elim (Bool-cases (eq_ℤ code (pos 530))) [
          | inl g ↦ inl (e, rw (e, f, g) refl)
          | inr g ↦ inr (e, (unknown, rw (e, f, g) refl))
        ]
      ])
]

eq_ℤ-no_answer : (code : ℤ) → eq_ℤ code minus_one ≡ true → eq_ℤ code (pos 200) ≡ false
eq_ℤ-no_answer (pos n) e = ground arith
eq_ℤ-no_answer (negsuc n) e = ground arith

answer_of-output : (s : Session) → (answer_of s).0.output ≡ s.output
answer_of-output s =
    elim s.lines as (λ lines. (answer_of (record s { lines = lines })).0.output ≡ s.output) [
      | [] ↦ refl
      | line ∷ lines ↦ refl
    ]

close_http-output : (s : Session) → (close_http s).output ≡ s.output
close_http-output s = elim (Bool-cases s.conn.is_http_enabled) [
  | inl e ↦ rw e refl
  | inr e ↦ rw e refl
]

leaves-Comes :
    (t : Session) (disc : Disc) (result result' : Bool) (output : Bytes) (run : Run (Outcome Bool))
    → run ≡ leaves t disc result
    → t.output ≡ output
    → result ≡ result'
    → Comes output result' run
leaves-Comes t disc result result' output run e f g = (_, e, f, g)

-- The answer to the data.
data_answer-Comes :
    (s : Session) (disc : Disc)
    → Comes s.output
        (eq_ℤ (answer_of s).1.code (pos 200))
        (on_reply data_reply s disc (λ t. leaves (set_errno (close_http t) ok) disc true))
unfolding on_reply
data_answer-Comes s disc =
    let (t, a) = answer_of s in
    let same = answer_of-output s in
    elim (Bool-cases (eq_ℤ a.code minus_one)) [
      | inl e ↦ leaves-Comes t disc false _ _ _ (rw e refl) same (sym (eq_ℤ-no_answer a.code e))
      | inr e ↦ elim (data_reply-cases a.code) [
        | inl (f, r) ↦
            leaves-Comes (set_errno (close_http t) ok) disc true _ _ _ (rw (e, r) refl)
              (close_http-output t ∙ same) (sym f)
        | inr (inl (f, r)) ↦
            leaves-Comes (set_errno (close t) not_connected) disc false _ _ _ (rw (e, r) refl) same
              (sym f)
        | inr (inr (f, (errno, r))) ↦
            leaves-Comes (set_errno t errno) disc false _ _ _ (rw (e, r) refl) same (sym f)
      ]
    ]

-- The data and the dot behind it.
send_data-Comes :
    (s : Session) (disc : Disc) (text : Bytes)
    → s.conn.is_http_enabled ≡ false
    → 2 < s.conn.buf_size
    → Comes
        (s.output ++ text ++ codes ".\n")
        (eq_ℤ (get_response_code s.conn.errnum (first_line s.lines)).code (pos 200))
        (send_data s disc (value text))
unfolding send_data send_text sock_printf
send_data-Comes s disc text plain room =
    let fits : leb s.conn.buf_size 2 ≡ false = ground arith in
    let sent : Session = record s { output = s.output ++ text ++ codes ".\n" } in
    let (_, a) = answer_of-Untouched sent in
    let (o, e, out, result) = data_answer-Comes sent disc in
    (o, simp (plain, fits) e, out, result ∙ ap (λ a. eq_ℤ a.code (pos 200)) a)

if_no {ℓ} : {A : Type ℓ} (b : Bool) (x y : A) → b ≡ false → (if b then x else y) ≡ y
if_no b x y e = rw e refl

on_reply-accepted :
    (s : Session) (disc : Disc) (ready msg : Bytes) (rest : List Bytes)
    (further : Session → Run (Outcome Bool))
    → get_response_code s.conn.errnum (some ready)
      ≡ record { errno = ok; code = pos 320; msg = msg }
    → on_reply command_reply (record s { lines = ready ∷ rest }) disc further
      ≡ further (set_errno (record s { lines = rest }) ok)
unfolding on_reply command_reply
on_reply-accepted s disc ready msg rest further reply =
    rw reply (ap (λ (a : Answer). further (set_errno (record s { lines = rest }) a.errno)) reply)

-- An answer 320 lets the data follow.
pub after_command-Comes :
    (s : Session) (disc : Disc) (text ready msg : Bytes) (rest : List Bytes)
    → s.conn.is_http_enabled ≡ false
    → 2 < s.conn.buf_size
    → get_response_code s.conn.errnum (some ready)
      ≡ record { errno = ok; code = pos 320; msg = msg }
    → Comes
        (s.output ++ text ++ codes ".\n")
        (eq_ℤ (get_response_code ok (first_line rest)).code (pos 200))
        (after_command disc (value text) (record s { lines = ready ∷ rest }, true))
unfolding after_command
after_command-Comes s disc text ready msg rest plain room reply =
    let t : Session = set_errno (record s { lines = rest }) ok in
    let (o, e, out, result) = send_data-Comes t disc text plain room in
    (
      o,
      if_no s.conn.is_http_enabled _ _ plain
          ∙ on_reply-accepted s disc ready msg rest (λ t. send_data t disc (value text)) reply
          ∙ e,
      out,
      result,
    )

-- What was written at the start of a buffer lies in it.
pub bytes_of-append : (xs ys : Bytes) → bytes_of (length xs) (xs ++ ys) ≡ value xs
bytes_of-append xs ys =
    let fits : leb (length xs) (length (xs ++ ys)) ≡ true = ground (arith, length-append xs ys) in
    rw (fits, take-append xs ys) refl
