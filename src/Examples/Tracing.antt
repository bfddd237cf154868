-- ===== src/Examples/Tracing.antt =====
-- The tracer of symbol files after three accesses.
use tlmboy.Base.{◌≡◌, refl, arith, true, [], ◌∷◌}
use tlmboy.SymfileTracer.{SymfileTracer, clear, dump_trace}
use tlmboy.SymfileTracer.Cover.{has_range, trace_all, dump_trace-is_traced}

abbrev tracer : SymfileTracer
tracer = record { access_arr = λ j. true }

dump_trace-is_traced_example :
    has_range (dump_trace (trace_all ((3, 7) ∷ (2, 0x4008) ∷ (0, 8) ∷ []) (clear tracer))) 3 8
    ≡ true
dump_trace-is_traced_example =
    dump_trace-is_traced ((3, 7) ∷ (2, 0x4008) ∷ (0, 8) ∷ []) tracer 3 8 refl (omega arith)
      (omega arith)
