-- ===== src/Ws/Manager/Routing.antt =====
-- Who receives an event: the clients of its account, and nobody else's.
use aurexis.Base.{
  String, ◌≡◌, ◌≢◌, refl, inl, inr, Bool, true, false, ◌||◌, some, List, [], ◌∷◌, ◌++◌, ◌==◌,
  ==_iff, str_eq, String_key, lookup-insert, select, arith, eq_iff, eq_refl, Bool-cases,
}
use aurexis.Ws.Manager.{
  Socket, ConnectionManager, member, add, of_account, connect, broadcast_event, send_to_account,
  send_to_all_global, given,
}

given-some : (account : String) → account ≢ "" → given (some account) ≡ some account
given-some account h = ground (arith, eq_iff account "")

module _ (takes : Socket → Bool) (account : String) (m : ConnectionManager) where
  sent-send_to_account : (send_to_account takes account m).0 ≡ select takes (of_account account m)
  unfolding send_to_account of_account
  sent-send_to_account = ground arith

  others-send_to_account :
      (other : String)
      → other ≢ account
      → of_account other (send_to_account takes account m).1 ≡ of_account other m
  unfolding send_to_account of_account
  others-send_to_account other h = ground (
    arith,
    lookup-insert account other (select takes (of_account account m)) m.account_connections,
    eq_iff account other,
  )

  kept-send_to_account :
      of_account account (send_to_account takes account m).1 ≡ select takes (of_account account m)
  unfolding send_to_account of_account
  kept-send_to_account = ground (
    arith,
    lookup-insert account account (select takes (of_account account m)) m.account_connections,
    eq_refl account,
  )

  global-send_to_account :
      (send_to_account takes account m).1.global_connections ≡ m.global_connections
  unfolding send_to_account
  global-send_to_account = ground arith

text_differs : (a b : String) → a ≢ b → str_eq a b ≡ false
text_differs a b h = ground (arith, eq_iff a b)

broadcast_event-scope :
    (takes : Socket → Bool) (event account : String) (m : ConnectionManager)
    → account ≢ ""
    → event ≢ "SYSTEM_ALERT"
    → broadcast_event takes event (some account) m ≡ send_to_account takes account m
unfolding broadcast_event
broadcast_event-scope takes event account m h k =
    rw (text_differs account "" h, text_differs event "SYSTEM_ALERT" k) refl

-- An event of an account, not of the empty text, that is no system alert reaches the sockets of that account that take it,
-- and no other: those stay registered, the dead ones go, and neither the sets of other accounts nor
-- the global connections change.
pub broadcast_event_scoped :
    (takes : Socket → Bool) (event account other : String) (m : ConnectionManager)
    → account ≢ ""
    → event ≢ "SYSTEM_ALERT"
    → other ≢ account
    → let (sent, m') = broadcast_event takes event (some account) m in
      (sent ≡ select takes (of_account account m))
      × (of_account account m' ≡ select takes (of_account account m))
      × (of_account other m' ≡ of_account other m)
      × (m'.global_connections ≡ m.global_connections)
broadcast_event_scoped takes event account other m nonempty ordinary differs =
    rw (broadcast_event-scope takes event account m nonempty ordinary) (
      sent-send_to_account takes account m,
      kept-send_to_account takes account m,
      others-send_to_account takes account m other differs,
      global-send_to_account takes account m,
    )

member-append :
    (w : Socket) (xs ys : List Socket) → member w (xs ++ ys) ≡ (member w xs || member w ys)
member-append w [] ys = refl
member-append w (x ∷ xs) ys = ground (arith, member-append w xs ys)

member-add : (w : Socket) (xs : List Socket) → member w (add w xs) ≡ true
member-add w xs = ground (arith, member-append w xs (w ∷ []))

member-select :
    (takes : Socket → Bool) (w : Socket) (xs : List Socket)
    → takes w ≡ true
    → member w xs ≡ true
    → member w (select takes xs) ≡ true
member-select takes w [] t h = h
member-select takes w (x ∷ xs) t h = elim (Bool-cases (x == w)) [
  | inl e ↦ (let t' : takes x ≡ true = rw ((==_iff x w).0 e) t in rw (t', e) refl)
  | inr n ↦ ground (arith, n, member-select takes w xs t)
]

of_account-connect :
    (w : Socket) (account : String) (m : ConnectionManager)
    → account ≢ ""
    → of_account account (connect w (some account) m) ≡ add w (of_account account m)
unfolding connect of_account
of_account-connect w account m h = ground (
  arith,
  text_differs account "" h,
  lookup-insert account account (add w (of_account account m)) m.account_connections,
  eq_refl account,
)

received :
    (takes : Socket → Bool) (account : String) (w : Socket) (m : ConnectionManager)
    → account ≢ ""
    → takes w ≡ true
    → member w (send_to_account takes account (connect w (some account) m)).0 ≡ true
received takes account w m h t =
    rw
      (
        sent-send_to_account takes account (connect w (some account) m),
        of_account-connect w account m h,
      )
      (member-select takes w (add w (of_account account m)) t (member-add w (of_account account m)))

-- A client that is connected for an account, not for the empty text, and takes the message gets
-- every event of that account.
pub broadcast_event-connect :
    (takes : Socket → Bool) (event account : String) (w : Socket) (m : ConnectionManager)
    → account ≢ ""
    → takes w ≡ true
    → member w (broadcast_event takes event (some account) (connect w (some account) m)).0 ≡ true
unfolding broadcast_event
broadcast_event-connect takes event account w m nonempty alive =
    let got = received takes account w m nonempty alive in
    let sent = send_to_account takes account (connect w (some account) m) in
    elim (Bool-cases (str_eq event "SYSTEM_ALERT")) [
      | inl alert ↦
          rw (text_differs account "" nonempty, alert)
            (rw (member-append w sent.0 (send_to_all_global takes sent.1).0, got) refl)
      | inr ordinary ↦ rw (text_differs account "" nonempty, ordinary) got
    ]
