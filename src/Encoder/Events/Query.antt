-- ===== src/Encoder/Events/Query.antt =====
-- A client's reading of the payload of a query event.
use mathlib.Core.List.{append-nil}
use my_proxy.Base.{
  ℕ, ◌<◌, ◌^◌, ◌≡◌, refl, ap, ◌∙◌, [], ◌∷◌, ◌++◌, Bytes, length, take, drop, replicate,
  length-replicate, take-append, drop-append, arith,
}
use my_proxy.Base.Copy.{joined, write_fields-joined}
use my_proxy.Base.Wire.{put_le, get_le, length-put_le, get_le-put_le}
use my_proxy.Encoder.Events.{QueryEvent, query_fields, encode_query_event}

abbrev make_query : ℕ → ℕ → ℕ → Bytes → Bytes → Bytes → QueryEvent
make_query a b c d e f = record {
  slave_proxy_id = a;
  execution_time = b;
  error_code = c;
  status_vars = d;
  schema = e;
  query = f;
}

-- The texts behind the 13 bytes of numbers: the status variables, the schema with a zero behind
-- it, and the query.
read_texts : ℕ → ℕ → ℕ → ℕ → ℕ → Bytes → QueryEvent
read_texts id time code vars schema bs =
    make_query id time code (take vars bs) (take schema (drop vars bs))
      (drop 1 (drop schema (drop vars bs)))

pub read_query : Bytes → QueryEvent
read_query bs =
    read_texts (get_le (take 4 bs)) (get_le (take 4 (drop 4 bs))) (get_le (take 2 (drop 9 bs)))
      (get_le (take 2 (drop 11 bs))) (get_le (take 1 (drop 8 bs))) (drop 13 bs)

-- The widths of the payload's fields.
pub record FitsQuery (e : QueryEvent) : Type 0 where
  pub slave_proxy_id_fits : e.slave_proxy_id < 2 ^ 32
  pub execution_time_fits : e.execution_time < 2 ^ 32
  pub error_code_fits : e.error_code < 2 ^ 16
  pub status_vars_fits : length e.status_vars < 2 ^ 16
  pub schema_fits : length e.schema < 2 ^ 8

encode_query_event-joined : (e : QueryEvent) → encode_query_event e ≡ joined (query_fields e)
unfolding encode_query_event query_fields
encode_query_event-joined e =
    write_fields-joined [] (query_fields e) (replicate _ 0)
      (
        length-put_le 4 _,
        (
          length-put_le 4 _,
          (
            length-put_le 1 _,
            (length-put_le 2 _, (length-put_le 2 _, (refl, (refl, (refl, (refl, tt)))))),
          ),
        ),
      )
      (length-replicate _ 0 ∙ omega arith)

read_texts_lem :
    (id time code : ℕ) (vars schema query : Bytes)
    → read_texts id time code (length vars) (length schema) (vars ++ (schema ++ (0 ∷ query)))
      ≡ make_query id time code vars schema query
unfolding read_texts
read_texts_lem id time code vars schema query =
    rw
      (
        take-append vars (schema ++ (0 ∷ query)),
        drop-append vars (schema ++ (0 ∷ query)),
        take-append schema (0 ∷ query),
        drop-append schema (0 ∷ query),
      )
      refl

read_texts_of :
    {a a' b b' c c' d d' e e' : ℕ} (bs : Bytes)
    → a ≡ a'
    → b ≡ b'
    → c ≡ c'
    → d ≡ d'
    → e ≡ e'
    → read_texts a b c d e bs ≡ read_texts a' b' c' d' e' bs
read_texts_of bs p q r s t = cc

-- A query event whose numbers and lengths fit their fields is read back whole.
pub read_query-encode_query_event :
    (e : QueryEvent) → FitsQuery e → read_query (encode_query_event e) ≡ e
unfolding read_query query_fields put_le
read_query-encode_query_event e fits =
    let texts = e.status_vars ++ (e.schema ++ (0 ∷ e.query)) in
    ap read_query (encode_query_event-joined e)
    ∙ read_texts_of (e.status_vars ++ (e.schema ++ (0 ∷ (e.query ++ []))))
        (get_le-put_le 4 e.slave_proxy_id fits.slave_proxy_id_fits)
        (get_le-put_le 4 e.execution_time fits.execution_time_fits)
        (get_le-put_le 2 e.error_code fits.error_code_fits)
        (get_le-put_le 2 (length e.status_vars) fits.status_vars_fits)
        (get_le-put_le 1 (length e.schema) fits.schema_fits)
    ∙ read_texts_lem e.slave_proxy_id e.execution_time e.error_code e.status_vars e.schema
        (e.query ++ [])
    ∙ ap (make_query e.slave_proxy_id e.execution_time e.error_code e.status_vars e.schema)
        (append-nil e.query)
