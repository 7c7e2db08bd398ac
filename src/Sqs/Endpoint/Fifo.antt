-- ===== src/Sqs/Endpoint/Fifo.antt =====
-- Which queue URLs IsFifoQueueUrl of sqs/SqsPlugin/SqsConfig.cpp takes for FIFO queues.
use graftcode_extensions.Base.{
  ◌-◌, ◌≡◌, refl, sym, ap, ◌∙◌, ◌⊎◌, ◌↔◌, true, false, ◌&&◌, some, [], ◌∷◌, ◌++◌, append_assoc,
  arith, Bytes, codes, bytes_eq, bytes_eq_iff, length, length-append, take, drop, take-append-drop,
  drop-append_length, All, All-append, All-left, subst, bytes_eq_refl, leb, ◌==◌, back, back-concat,
  pop_while, pop_while-Popped, pop_while-append, before_byte, before_byte-append,
  before_byte-splits,
}
use graftcode_extensions.Sqs.Endpoint.{is_slash, is_fifo_queue_url}

abbrev NoMark : Bytes → Type 0
NoMark = All (λ c. (c == b'?') ≡ false)

-- A URL whose path ends in ".fifo", up to slashes, in front of a query that may be missing.
pub record IsFifoUrl (url : Bytes) : Type 0 where
  pub base : Bytes
  pub slashes : Bytes
  pub query : Bytes
  pub splits : url ≡ (base ++ codes ".fifo") ++ (slashes ++ query)
  pub base_plain : All (λ c. (c == b'?') ≡ false) base
  pub all_slashes : All (λ c. is_slash c ≡ true) slashes
  pub query_marked : (query ≡ []) ⊎ ((rest : Bytes) × (query ≡ b'?' ∷ rest))

fifo-suffix :
    (n : Bytes)
    → (leb 5 (length n) && bytes_eq (drop (length n - 5) n) (codes ".fifo")) ≡ true
    → n ≡ take (length n - 5) n ++ codes ".fifo"
fifo-suffix n h =
    sym (take-append-drop (length n - 5) n)
    ∙ ap (λ (t : Bytes). take (length n - 5) n ++ t)
        (ground (arith, bytes_eq_iff (drop (length n - 5) n) (codes ".fifo")))

suffix-fifo :
    (base : Bytes)
    → let n = base ++ codes ".fifo" in
      (leb 5 (length n) && bytes_eq (drop (length n - 5) n) (codes ".fifo")) ≡ true
unfolding codes
suffix-fifo base =
    let len : length (base ++ codes ".fifo") - 5 ≡ length base =
      omega (arith, length-append base (codes ".fifo")) in
    rw (len, drop-append_length base (codes ".fifo"))
      (ground (arith, length-append base (codes ".fifo"), bytes_eq_refl (codes ".fifo")))

slashes-NoMark : (s : Bytes) → All (λ c. is_slash c ≡ true) s → NoMark s
slashes-NoMark [] a = tt
slashes-NoMark (c ∷ s) a = (ground arith, slashes-NoMark s a.1)

fifo-NoMark : NoMark (codes ".fifo")
unfolding codes
fifo-NoMark = (refl, (refl, (refl, (refl, (refl, tt)))))

is_fifo-IsFifoUrl : (url : Bytes) → is_fifo_queue_url url ≡ true → IsFifoUrl url
unfolding is_fifo_queue_url
is_fifo-IsFifoUrl url h =
    let path = before_byte b'?' url in
    let n = pop_while is_slash path in
    let p = pop_while-Popped is_slash path in
    let (query, url_splits, plain, marked) = before_byte-splits b'?' url in
    let suffix = fifo-suffix n h in
    let base = take (length n - 5) n in
    record {
      base = base;
      slashes = p.removed;
      query = query;
      splits =
          url_splits
          ∙ ap (λ (t : Bytes). t ++ query) (p.splits ∙ ap (λ (t : Bytes). t ++ p.removed) suffix)
          ∙ append_assoc (base ++ codes ".fifo") p.removed query;
      base_plain = All-left _ base (codes ".fifo" ++ p.removed) (
          subst NoMark
            (p.splits
              ∙ ap (λ (t : Bytes). t ++ p.removed) suffix
              ∙ append_assoc base (codes ".fifo") p.removed)
            plain);
      all_slashes = p.matched;
      query_marked = marked;
    }

IsFifoUrl-path :
    {url : Bytes} (f : IsFifoUrl url)
    → before_byte b'?' url ≡ (f.base ++ codes ".fifo") ++ f.slashes
IsFifoUrl-path {url} f =
    ap (before_byte b'?')
      (f.splits ∙ sym (append_assoc (f.base ++ codes ".fifo") f.slashes f.query))
    ∙ before_byte-append b'?' _ f.query
        (All-append _ (f.base ++ codes ".fifo") f.slashes
          (All-append _ f.base (codes ".fifo") f.base_plain fifo-NoMark)
          (slashes-NoMark f.slashes f.all_slashes))
        f.query_marked

back-fifo : (base : Bytes) → back (base ++ codes ".fifo") ≡ some b'o'
unfolding codes
back-fifo base = ap back (sym (append_assoc base (codes ".fif") (b'o' ∷ []))) ∙ back-concat _ b'o'

IsFifoUrl-is_fifo : (url : Bytes) → IsFifoUrl url → is_fifo_queue_url url ≡ true
unfolding is_fifo_queue_url
IsFifoUrl-is_fifo url f =
    let e : pop_while is_slash (before_byte b'?' url) ≡ f.base ++ codes ".fifo" =
      ap (pop_while is_slash) (IsFifoUrl-path f)
      ∙ pop_while-append is_slash (f.base ++ codes ".fifo") f.slashes b'o' (back-fifo f.base) refl
          f.all_slashes in
    rw e (suffix-fifo f.base)

-- IsFifoQueueUrl answers true for exactly the URLs whose part before the first question mark ends
-- in ".fifo", up to slashes behind it.
pub is_fifo_queue_url_iff : (url : Bytes) → (is_fifo_queue_url url ≡ true) ↔ IsFifoUrl url
is_fifo_queue_url_iff url = (is_fifo-IsFifoUrl url, IsFifoUrl-is_fifo url)
