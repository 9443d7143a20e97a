-- ===== src/Reader/FunctionRoundTrip.antt =====
-- compiler/reader/BIRReadFunction.cpp against the format of a function.
use nballerina_cpp.Base.{
  ℕ, ◌≡◌, refl, sym, ap, ◌∙◌, inl, inr, Bool, Bool-cases, ◌||◌, if◌then◌else◌, true, false, none,
  List, [], ◌∷◌, ◌++◌, map, append_assoc, arith, length, concat_map, int32, int64, int32_small,
  int64_small, bits64-int64,
}
use nballerina_cpp.Bir.Kinds.{VarKind, local_var_kind, arg_var_kind}
use nballerina_cpp.Bir.Program.{BirPackage}
use nballerina_cpp.Run.{ok}
use nballerina_cpp.Reader.Stream.{good}
use nballerina_cpp.Reader.Primitives.{ignore}
use nballerina_cpp.Reader.Wire.{
  Parses, Parses-bind, Parses-pure, Parses-last, Parses-bind_rest, Parses-lift, Parses-read_u1,
  Parses-read_s4be, Parses-read_s8be, Parses-ignore, rounds-int32, Parses-reserve, Counted, count,
  Parses-loop, Parses-vector, Parses-optional,
}
use nballerina_cpp.Reader.Pool.Set.{ConstantPoolSet}
use nballerina_cpp.Reader.OperandWire.{TypeRef, Parses-string_at}
use nballerina_cpp.Reader.BlockRoundTrip.{value_block, Parses-block}
use nballerina_cpp.Reader.Function.{
  read_var_meta, read_arg_meta, read_scope_entry, read_receiver, ignore_function, keep_function,
  front, pop, type_at, read_local_var, read_return_var, read_param_name, read_params,
  read_default_blocks, read_signature_part, read_body_part, read_function_head, read_function,
}
use nballerina_cpp.Reader.FunctionWire.{
  MetaOfVar, encode_var_meta, MetaOfArg, encode_arg_meta, ScopeWire, encode_scope, ReceiverWire,
  encode_receiver, LocalWire, encode_local, value_local, ReturnWire, encode_return, value_return,
  NameWire, encode_name, value_name, ParamWire, encode_param, encode_defaults, value_param,
  FunctionWire, names, encode_head, encode_signature, encode_function_body, encode_function,
  value_function,
}

-- Bytes that are passed over, behind a length of 32 and of 64 bits.
pub Parses-ignore_4 : (bytes : Counted ℕ) → Parses (ignore (int32 (count bytes))) bytes.items tt
Parses-ignore_4 bytes = rw (int32_small (count bytes) bytes.fits) (Parses-ignore bytes.items)

pub Parses-ignore_8 : (bytes : Counted ℕ) → Parses (ignore (int64 (count bytes))) bytes.items tt
Parses-ignore_8 bytes =
    rw (int64_small (count bytes) (omega (arith, bytes.fits))) (Parses-ignore bytes.items)

Parses-var_meta :
    (k : VarKind) (m : MetaOfVar k) → Parses (read_var_meta k) (encode_var_meta k m) tt
unfolding read_var_meta encode_var_meta MetaOfVar
Parses-var_meta arg_var_kind m = Parses-last _ (Parses-read_s4be m)
Parses-var_meta local_var_kind (a, b, c, d) = Parses-bind _ (Parses-read_s4be a) (
    Parses-bind _ (Parses-read_s4be b)
      (Parses-bind _ (Parses-read_s4be c) (Parses-last _ (Parses-read_s4be d))))
Parses-var_meta _ m = Parses-pure

Parses-arg_meta : (b : Bool) (m : MetaOfArg b) → Parses (read_arg_meta b) (encode_arg_meta b m) tt
unfolding read_arg_meta encode_arg_meta MetaOfArg
Parses-arg_meta true m = Parses-last _ (Parses-read_s4be m)
Parses-arg_meta false m = Parses-pure

Parses-scope : (w : ScopeWire) → Parses read_scope_entry (encode_scope w) tt
unfolding read_scope_entry encode_scope
Parses-scope w = Parses-bind _ (Parses-read_s4be _) (
    Parses-bind _ (Parses-read_s4be _) (
      Parses-bind _ (Parses-read_u1 _)
        (Parses-last _ (Parses-optional _ _ int32 w.parent Parses-read_s4be))))

Parses-receiver : (w : ReceiverWire) → Parses read_receiver (encode_receiver w) tt
unfolding read_receiver encode_receiver
Parses-receiver w =
    Parses-bind _ (Parses-read_u1 _)
      (Parses-bind _ (Parses-read_s4be _) (Parses-last _ (Parses-read_s4be _)))

module _ (cp : ConstantPoolSet) where
  Parses-type_at : (r : TypeRef cp) → Parses (type_at cp (int32 r.index)) [] r.type_of
  unfolding type_at
  Parses-type_at r = Parses-lift r.resolves

  Parses-local :
      (w : LocalWire cp) → Parses (read_local_var cp) (encode_local cp w) (value_local cp w)
  unfolding read_local_var encode_local value_local
  Parses-local w = Parses-bind _ (Parses-read_u1 _) (
      Parses-bind _ (Parses-read_s4be _) (
        Parses-bind _ (Parses-type_at w.type_ref) (
          Parses-bind _ (Parses-read_s4be _) (
            Parses-bind_rest _ (Parses-var_meta _ w.meta)
              (Parses-last _ (Parses-string_at cp w.name))))))

  Parses-return :
      (w : ReturnWire cp) → Parses (read_return_var cp) (encode_return cp w) (value_return cp w)
  unfolding read_return_var encode_return value_return
  Parses-return w = Parses-bind _ (Parses-read_u1 _) (
      Parses-bind _ (Parses-read_s4be _) (
        Parses-bind _ (Parses-type_at w.type_ref)
          (Parses-bind_rest _ (Parses-read_s4be _) (Parses-last _ (Parses-string_at cp w.name)))))

  Parses-name : (w : NameWire cp) → Parses (read_param_name cp) (encode_name cp w) (value_name cp w)
  unfolding read_param_name encode_name value_name
  Parses-name w =
      Parses-bind _ (Parses-read_s4be _)
        (Parses-bind _ (Parses-string_at cp w.name) (Parses-last _ (Parses-read_s8be _)))

  -- The parameters take their names off the queue.
  Parses-params :
      (ps : List (ParamWire cp)) (spare : List (NameWire cp))
      → Parses
          (read_params cp
            (length ps)
            (map (value_name cp) (map (λ (p : ParamWire cp). p.named) ps ++ spare)))
          (concat_map (encode_param cp) ps)
          (map (value_param cp) ps)
  unfolding read_params concat_map encode_param value_param front pop
  Parses-params [] spare = Parses-pure
  Parses-params (p ∷ ps) spare =
      rw (append_assoc, append_assoc, append_assoc, append_assoc)
        (Parses-bind _ (Parses-read_u1 p.kind) (
          Parses-bind _ (Parses-read_s4be _) (
            Parses-bind _ (Parses-lift refl) (
              Parses-bind _ (Parses-type_at p.type_ref) (
                Parses-bind _ (Parses-read_s4be _) (
                  Parses-bind _ (Parses-arg_meta _ p.meta) (
                    Parses-bind _ (Parses-read_u1 p.has_default)
                      (Parses-last _ (Parses-params ps spare)))))))))

  Parses-defaults :
      (p : ParamWire cp)
      → Parses
          (read_default_blocks cp)
          (encode_defaults cp p)
          (map (value_block cp) p.defaults.items)
  unfolding read_default_blocks encode_defaults
  Parses-defaults p =
      Parses-bind _ (Parses-read_s4be _) (Parses-loop _ _ _ p.defaults (Parses-block cp))

  Parses-head :
      (w : FunctionWire cp)
      → Parses (read_function_head cp) (encode_head cp w) (
        w.file.text,
        record (value_function cp w) {
          return_var = none;
          local_vars = [];
          basic_blocks = [];
          required_params = [];
        },
      )
  unfolding read_function_head encode_head value_function
  Parses-head w = rw (sym (bits64-int64 w.flags)) (
      Parses-bind _ (Parses-read_s4be _) (
        Parses-bind _ (Parses-read_s4be _) (
          Parses-bind _ (Parses-read_s4be _) (
            Parses-bind _ (Parses-read_s4be _) (
              Parses-bind _ (Parses-read_s4be _) (
                Parses-bind _ (Parses-string_at cp w.file) (
                  Parses-bind _ (Parses-read_s4be _) (
                    Parses-bind _ (Parses-string_at cp w.name) (
                      Parses-bind _ (Parses-read_s4be _) (
                        Parses-bind _ (Parses-read_s8be _) (
                          Parses-bind _ (Parses-read_u1 _) (
                            Parses-bind_rest _ (Parses-read_s4be _) (
                              Parses-bind _ (Parses-lift w.resolves)
                                (Parses-last _ (Parses-string_at cp w.worker)))))))))))))))

  Parses-signature :
      (w : FunctionWire cp)
      → Parses
          (read_signature_part cp)
          (encode_signature cp w)
          (map (value_name cp) (names cp w).items)
  unfolding read_signature_part encode_signature
  Parses-signature w = Parses-bind _ (Parses-read_s8be _) (
      Parses-bind _ (Parses-ignore_8 w.annotations) (
        Parses-bind _ (Parses-read_s4be _) (
          Parses-bind _ (Parses-loop _ _ _ (names cp w) Parses-name) (
            Parses-bind _ (Parses-read_u1 _) (
              Parses-bind _ (Parses-optional _ _ int32 w.rest_param Parses-read_s4be) (
                Parses-bind _ (Parses-read_u1 _) (
                  Parses-bind _ (Parses-optional _ _ (λ r. tt) w.receiver Parses-receiver) (
                    Parses-bind _ (Parses-read_s8be _) (
                      Parses-bind _ (Parses-ignore_8 w.taint_table) (
                        Parses-bind _ (Parses-read_s4be _) (
                          Parses-bind _ (Parses-ignore_4 w.doc) (
                            Parses-bind _ (Parses-read_s4be _) (
                              Parses-bind _ (Parses-loop _ _ int32 w.globals Parses-read_s4be) (
                                Parses-bind _ (Parses-read_s8be _) (
                                  Parses-bind _ (Parses-read_s4be _) (
                                    Parses-last _ (
                                      Parses-loop _ _ (λ s. tt) w.scopes
                                        Parses-scope)))))))))))))))))

  Parses-body :
      (w : FunctionWire cp)
      → Parses
          (read_body_part cp
            (map (value_name cp) (names cp w).items)
            (record (value_function cp w) {
              return_var = none;
              local_vars = [];
              basic_blocks = [];
              required_params = [];
            }))
          (encode_function_body cp w)
          (value_function cp w)
  unfolding read_body_part encode_function_body value_function names
  Parses-body w = Parses-bind _ (Parses-read_s8be _) (
      Parses-bind _ (Parses-read_s4be _) (
        Parses-bind _ (Parses-read_u1 _) (
          Parses-bind _ (Parses-optional _ _ _ w.return_var Parses-return) (
            Parses-bind _ (Parses-read_s4be _) (
              Parses-bind _ (Parses-reserve (count w.params) w.params.fits) (
                Parses-bind _
                  (rw (rounds-int32 (count w.params) w.params.fits)
                    (Parses-params w.params.items w.spare))
                  (Parses-bind _ (Parses-read_s4be _) (
                    Parses-bind _ (Parses-vector _ _ _ w.locals Parses-local) (
                      Parses-bind _ (Parses-loop _ _ _ w.params Parses-defaults) (
                        Parses-bind _ (Parses-read_s4be _) (
                          Parses-bind _ (Parses-vector _ _ _ w.blocks (Parses-block cp)) (
                            Parses-bind _ (Parses-read_s4be _)
                              (Parses-last _ (Parses-read_s4be _))))))))))))))

  pub Parses-function :
      (ignored : Bool) (p : BirPackage) (w : FunctionWire cp)
      → Parses
          (read_function cp ignored p)
          (encode_function cp w)
          (keep_function ignored w.file.text (value_function cp w) p)
  unfolding read_function encode_function
  Parses-function ignored p w =
      Parses-bind _ (Parses-head w)
        (Parses-bind _ (Parses-signature w) (Parses-last _ (Parses-body w)))

  keep_function_lem :
      (ignored : Bool) (p : BirPackage) (w : FunctionWire cp)
      → keep_function ignored w.file.text (value_function cp w) p ≡ record p {
        source_file_name = w.file.text;
        functions =
            if ignored || ignore_function w.name.text
            then p.functions
            else p.functions ++ (value_function cp w ∷ []);
      }
  unfolding keep_function value_function
  keep_function_lem ignored p w = elim (Bool-cases (ignored || ignore_function w.name.text)) [
    | inl e ↦ rw e refl
    | inr e ↦ rw e refl
  ]

  -- Reading back a function: on the encoding of any function whose references the constant pool
  -- resolves and whose counts are less than 2 ^ 31, whatever bytes follow it, `readFunction` ends normally and consumes exactly the encoding.
  -- The package gets the name of the source file, and the function behind its functions where neither
  -- the caller says that it is to be ignored nor its name, by `ignoreFunction`; the rest of the package,
  -- and else its functions too, stay as they were.
  pub read_function-encode_function :
      (ignored : Bool) (p : BirPackage) (w : FunctionWire cp) (rest : List ℕ)
      → read_function cp ignored p (good (encode_function cp w ++ rest))
        ≡ ok (
          record p {
            source_file_name = w.file.text;
            functions =
                if ignored || ignore_function w.name.text
                then p.functions
                else p.functions ++ (value_function cp w ∷ []);
          },
          good rest,
        )
  read_function-encode_function ignored p w rest =
      (Parses-function ignored p w).run rest
      ∙ ap (λ (p' : BirPackage). ok (p', good rest)) (keep_function_lem ignored p w)
