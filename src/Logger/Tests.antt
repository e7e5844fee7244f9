-- ===== src/Logger/Tests.antt =====
-- Messages of several levels.
use maelstromdb.Base.{◌≡◌, refl, [], ◌∷◌}
use maelstromdb.Logger.{debug, warn, new_logger, log_all, line, colored}

-- At the default level, a warning is written and a debug message is not.
levels :
    (log_all (λ n. []) ((debug, []) ∷ (warn, []) ∷ (debug, []) ∷ []) new_logger).clog
    ≡ line ([] ∷ colored warn ∷ [])
unfolding log_all new_logger line colored
levels = refl
