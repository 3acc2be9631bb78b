-- ===== src/Telegram/Linked.antt =====
-- What `link_command` of app/handlers/auth.py has done by its reply, and that a code links once.
use autopay.Base.{
  ℕ, ◌+◌, ◌≤◌, ◌≡◌, ◌⊎◌, inl, inr, refl, sym, subst, ap, ◌∙◌, true, false, Option, none, some, List,
  [], ◌∷◌, String, strip, ltb, ltb→le, if◌then◌else◌, arith, Table, get, put, first, UniqueKeys,
  first-has_key, Bool-cases,
}
use autopay.Base.Letters.{upper}
use autopay.Models.{User, TelegramLinkCode}
use autopay.Session.{Result, ok, err, World}
use autopay.Conversation.{get_linked_user}
use autopay.Telegram.{
  LinkReply, has_code, is_unused, has_chat, linked_user, link_user, is_other, link_checked,
  link_code_row, link_in_session, link_from, link_command,
}

module _ (now : ℕ) (chat_id code : String) (w : World) where
  -- What a reply means for the committed database.
  abbrev pub Replied : Result LinkReply × World → Type 0
  Replied (ok LinkReply.linked, w') =
      (k : ℕ) × (row : TelegramLinkCode) × (user : User) × (first (is_unused code)
          w.committed.telegram_link_codes
        ≡ some (k, row))
      × (now ≤ row.expires_at)
      × (is_other row.user_id (first (has_chat chat_id) w.committed.users) ≡ false)
      × (get row.user_id w.committed.users ≡ some user)
      × (w'.committed.users ≡ put row.user_id (linked_user chat_id user) w.committed.users)
      × (w'.committed.telegram_link_codes
          ≡ put k (record row { is_used = true }) w.committed.telegram_link_codes)
      × (w'.committed.bills ≡ w.committed.bills)
      × (w'.committed.transactions ≡ w.committed.transactions)
  Replied (ok reply, w') = w'.committed ≡ w.committed
  Replied (err e, w') = ⊥

  abbrev opened : World
  opened = record w { work = w.committed }

  abbrev closed : Result LinkReply × World → Result LinkReply × World
  closed x = (x.0, record x.1 { work = x.1.committed })

  module _ (k : ℕ) (row : TelegramLinkCode)
      (unused : first (is_unused code) w.committed.telegram_link_codes ≡ some (k, row))
      (live : now ≤ row.expires_at) where
    user-Replied :
        (user : Option User)
        → is_other row.user_id (first (has_chat chat_id) w.committed.users) ≡ false
        → get row.user_id w.committed.users ≡ user
        → Replied (closed (link_user chat_id code k row user opened))
    unfolding link_user
    user-Replied none mine e = refl
    user-Replied (some user) mine e = (k, row, user, unused, live, mine, e, refl, refl, refl, refl)

    checked-Replied : Replied (
        closed
          (link_checked chat_id code k row (first (has_chat chat_id) w.committed.users) opened))
    unfolding link_checked
    checked-Replied =
        elim (Bool-cases (is_other row.user_id (first (has_chat chat_id) w.committed.users))) [
          | inl e ↦ rw e refl
          | inr e ↦ rw e (user-Replied _ e refl)
        ]

  row-Replied :
      (found : Option (ℕ × TelegramLinkCode))
      → first (is_unused code) w.committed.telegram_link_codes ≡ found
      → Replied (closed (link_code_row now chat_id code found opened))
  unfolding link_code_row
  row-Replied none e = refl
  row-Replied (some (k, row)) e = elim (Bool-cases (ltb row.expires_at now)) [
    | inl late ↦ rw late refl
    | inr live ↦ rw live (checked-Replied k row e (ltb→le _ _ live))
  ]

  from-Replied : (user : Option (ℕ × User)) → Replied (link_from now chat_id code user w)
  unfolding link_from link_in_session
  from-Replied none = row-Replied _ refl
  from-Replied (some user) = refl

-- A link command never raises. If it replies that the account is linked, the code was unused and had
-- not expired, the chat belonged to no other user, the user behind the code has the chat, and the
-- code is used up; bills and transactions are as they were. Any other reply changes nothing.
pub link_command_outcome :
    (now : ℕ) (chat_id arg : String) (args : List String) (w : World)
    → Replied now chat_id (upper (strip arg)) w (link_command now chat_id (arg ∷ args) w)
unfolding link_command
link_command_outcome now chat_id arg args w =
    from-Replied now chat_id (upper (strip arg)) w (get_linked_user chat_id w)

-- How many rows have a code: one at most, by the UNIQUE constraint.
abbrev pub count_code : String → Table TelegramLinkCode → ℕ
count_code code [] = 0
count_code code ((k, row) ∷ t) =
    let rest = count_code code t in if has_code code row then rest + 1 else rest

no_code :
    (code : String) (t : Table TelegramLinkCode)
    → count_code code t ≡ 0
    → first (is_unused code) t ≡ none
no_code code [] h = refl
no_code code ((k, row) ∷ t) h = ground (arith, no_code code t)

used_up :
    (code : String) (k : ℕ) (row : TelegramLinkCode) (t : Table TelegramLinkCode)
    → first (is_unused code) t ≡ some (k, row)
    → count_code code t ≤ 1
    → UniqueKeys t
    → first (is_unused code) (put k (record row { is_used = true }) t) ≡ none
used_up code k row [] e few u = cc
used_up code k row ((j, r) ∷ t) e few u =
    ground (arith, used_up code k row t, no_code code t, first-has_key (is_unused code) k row t)

-- A second command: nothing is committed, and no account is linked.
abbrev pub Repeated : World → Result LinkReply × World → Type 0
Repeated w x =
    (x.1.committed ≡ w.committed)
    × ((x.0 ≡ ok LinkReply.already_linked) ⊎ (x.0 ≡ ok LinkReply.invalid_code))

used_code :
    (now : ℕ) (chat_id code : String) (user : Option (ℕ × User)) (w : World)
    → first (is_unused code) w.committed.telegram_link_codes ≡ none
    → Repeated w (link_from now chat_id code user w)
unfolding link_from link_in_session link_code_row
used_code now chat_id code (some user) w e = (refl, inl refl)
used_code now chat_id code none w e = rw e (refl, inr refl)

module _ (now : ℕ) (chat_id arg : String) (args : List String) (w : World) where
  abbrev code : String
  code = upper (strip arg)

  abbrev pub w₁ : World
  w₁ = (link_command now chat_id (arg ∷ args) w).1

  linked_uses :
      (x : Result LinkReply × World)
      → Replied now chat_id code w x
      → x.0 ≡ ok LinkReply.linked
      → count_code code w.committed.telegram_link_codes ≤ 1
      → UniqueKeys w.committed.telegram_link_codes
      → first (is_unused code) x.1.committed.telegram_link_codes ≡ none
  linked_uses (ok LinkReply.linked, w') (k, row, user, e, _, _, _, _, codes, _, _) is_linked few
        unique =
      ap (first (is_unused code)) codes
      ∙ used_up code k row w.committed.telegram_link_codes e few unique
  linked_uses (ok reply, w') r is_linked few unique = cc
  linked_uses (err e, w') r is_linked few unique = absurd r

  -- A code links one account, once: after a command that linked an account, a command with the same
  -- code, from any chat at any time, replies that the chat is linked already or that the code is
  -- invalid, and changes nothing. (The code is unique, as the column is.)
  pub link_code_once :
      (now' : ℕ) (chat_id' arg' : String) (args' : List String)
      → (link_command now chat_id (arg ∷ args) w).0 ≡ ok LinkReply.linked
      → count_code code w.committed.telegram_link_codes ≤ 1
      → UniqueKeys w.committed.telegram_link_codes
      → upper (strip arg') ≡ code
      → Repeated w₁ (link_command now' chat_id' (arg' ∷ args') w₁)
  unfolding link_command
  link_code_once now' chat_id' arg' args' is_linked few unique same =
      subst (λ c. Repeated w₁ (link_from now' chat_id' c (get_linked_user chat_id' w₁) w₁))
        (sym same)
        (used_code now' chat_id' code (get_linked_user chat_id' w₁) w₁
          (linked_uses _ (link_command_outcome now chat_id arg args w) is_linked few unique))
