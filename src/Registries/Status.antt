-- ===== src/Registries/Status.antt =====
-- swiyu-registries/src/status: the entries of status lists.
use swiyu_rs.Prelude.{
  ℕ, suc, ◌^◌, some, List, [], ◌∷◌, ◌++◌, map, Result, ok, ◌>>=◌, guard, ok_or, map_err, ltb,
}
use swiyu_rs.Prelude.Text.{Text, text}
use swiyu_rs.Prelude.Decimal.{decimal}
use swiyu_rs.Json.Interface.{Json}
use swiyu_rs.Json.Access.{member, as_u64, as_array}
use swiyu_rs.Vendor.Crypto.{JsonText}
use swiyu_rs.Vendor.Web.{Web, request}
use swiyu_rs.Registries.Client.{
  RegistryError, transport, decode, http_status, trim_slashes, send_checked, read_string, json_body,
}

pub record StatusListEntry : Type 0 where
  pub id : Text
  pub registry_url : Text

pub record ListParams : Type 0 where
  pub page : ℕ
  pub size : ℕ
  pub sort : List Text

-- `ListParams::default`
abbrev pub default_params : ListParams
default_params = record { page = 0; size = 20; sort = [] }

pub record StatusListEntrySummary : Type 0 where
  pub id : Text
  pub created_at : Text
  pub updated_at : Text

pub record StatusListEntriesPage : Type 0 where
  pub entries : List StatusListEntrySummary
  pub page : ℕ
  pub size : ℕ
  pub total_elements : ℕ
  pub total_pages : ℕ

abbrev pub lists_url : Text → Text → Text
lists_url base_url partner_id =
    trim_slashes base_url
    ++ text "/api/v1/status/business-entities/"
    ++ partner_id
    ++ text "/status-list-entries/"

-- The query of a page, with each criterion of the order
abbrev pub page_query : ListParams → List (Text × Text)
page_query params =
    (text "page", decimal params.page)
    ∷ (text "size", decimal params.size)
    ∷ map (λ criterion. (text "sort", criterion)) params.sort

-- An error of an entry says which one it is.
abbrev pub entry_error : ℕ → RegistryError → RegistryError
entry_error index (decode message) =
    decode (text "content[" ++ decimal index ++ text "]: " ++ message)
entry_error index (transport e) = transport e
entry_error index (http_status status body) = http_status status body

module _ ⦃j : Json⦄ where
  open j use {Value}

  unfoldable pub read_u64 : Value → Text → Result RegistryError ℕ
  read_u64 value field = do
    v ← ok_or (member value field) (decode (text "missing " ++ field))
    ok_or (as_u64 v) (decode (field ++ text " is not a non-negative integer"))

  unfoldable pub read_u32 : Value → Text → Result RegistryError ℕ
  unfolding read_u64
  read_u32 value field = do
    n ← read_u64 value field
    _ ← guard (ltb n (2 ^ 32)) (decode (field ++ text " does not fit in u32: " ++ decimal n))
    ok n

  unfoldable pub decode_entry : Value → Result RegistryError StatusListEntrySummary
  unfolding read_string
  decode_entry value = do
    id ← read_string value (text "id")
    created_at ← read_string value (text "createdAt")
    updated_at ← read_string value (text "updatedAt")
    ok (record { id = id; created_at = created_at; updated_at = updated_at })

  -- The entries from an index on
  unfoldable pub decode_entries :
      ℕ → List Value → Result RegistryError (List StatusListEntrySummary)
  unfolding decode_entry
  decode_entries index [] = ok []
  decode_entries index (item ∷ items) = do
    entry ← map_err (entry_error index) (decode_entry item)
    entries ← decode_entries (suc index) items
    ok (entry ∷ entries)

  unfoldable pub decode_page : Value → Result RegistryError StatusListEntriesPage
  unfolding decode_entries read_u32 read_u64
  decode_page body = do
    value ← ok_or (member body (text "content")) (decode (text "missing content"))
    content ← ok_or (as_array value) (decode (text "content is not an array"))
    entries ← decode_entries 0 content
    page ← read_u32 body (text "number")
    size ← read_u32 body (text "size")
    total_elements ← read_u64 body (text "totalElements")
    total_pages ← read_u32 body (text "totalPages")
    ok (record {
      entries = entries;
      page = page;
      size = size;
      total_elements = total_elements;
      total_pages = total_pages;
    })

module _ ⦃w : Web⦄ where
  unfoldable pub update_status_list_entry :
      (base_url token partner_id entry_id status_list_jwt : Text) → Result RegistryError (Unit {0})
  unfolding send_checked trim_slashes
  update_status_list_entry base_url token partner_id entry_id status_list_jwt = do
    _ ← send_checked (record (request (text "PUT") (lists_url base_url partner_id ++ entry_id)) {
      token = some token;
      content_type = some (text "application/statuslist+jwt");
      body = some status_list_jwt;
    })
    ok tt

module _ ⦃w : Web⦄ ⦃j : Json⦄ ⦃t : JsonText j⦄ where
  unfoldable pub create_status_list_entry :
      (base_url token partner_id : Text) → Result RegistryError StatusListEntry
  unfolding send_checked trim_slashes json_body read_string
  create_status_list_entry base_url token partner_id = do
    response ←
        send_checked
          (record (request (text "POST") (lists_url base_url partner_id)) { token = some token })
    body ← json_body response
    id ← read_string body (text "id")
    registry_url ← read_string body (text "statusRegistryUrl")
    ok (record { id = id; registry_url = registry_url })

  unfoldable pub list_status_list_entries :
      (base_url token partner_id : Text) → ListParams → Result RegistryError StatusListEntriesPage
  unfolding send_checked trim_slashes json_body decode_page
  list_status_list_entries base_url token partner_id params = do
    response ← send_checked (record (request (text "GET") (lists_url base_url partner_id)) {
      token = some token;
      query = page_query params;
    })
    body ← json_body response
    decode_page body
