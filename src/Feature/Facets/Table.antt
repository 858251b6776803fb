-- ===== src/Feature/Facets/Table.antt =====
-- The map `opFacet` of feature/feature.go.
use go_mathsearch.Base.{Option, List, [], ◌∷◌}
use go_mathsearch.Base.Text.{Text, codes, lookup}

abbrev op_facet_table : List (Text × Text)
op_facet_table =
    (codes "Sum", codes "sum")
    ∷ (codes "Product", codes "product")
    ∷ (codes "Exp", codes "exponential")
    ∷ (codes "Log", codes "logarithm")
    ∷ (codes "Sin", codes "trigonometric")
    ∷ (codes "Cos", codes "trigonometric")
    ∷ (codes "Tan", codes "trigonometric")
    ∷ (codes "Cot", codes "trigonometric")
    ∷ (codes "Sec", codes "trigonometric")
    ∷ (codes "Csc", codes "trigonometric")
    ∷ (codes "ArcSin", codes "inverse-trigonometric")
    ∷ (codes "ArcCos", codes "inverse-trigonometric")
    ∷ (codes "ArcTan", codes "inverse-trigonometric")
    ∷ (codes "ArcCot", codes "inverse-trigonometric")
    ∷ (codes "Sinh", codes "hyperbolic")
    ∷ (codes "Cosh", codes "hyperbolic")
    ∷ (codes "Tanh", codes "hyperbolic")
    ∷ (codes "Coth", codes "hyperbolic")
    ∷ (codes "Sech", codes "hyperbolic")
    ∷ (codes "Csch", codes "hyperbolic")
    ∷ (codes "ArcSinh", codes "inverse-hyperbolic")
    ∷ (codes "ArcCosh", codes "inverse-hyperbolic")
    ∷ (codes "ArcTanh", codes "inverse-hyperbolic")
    ∷ (codes "Abs", codes "absolute-value")
    ∷ (codes "Sign", codes "sign")
    ∷ (codes "Factorial", codes "factorial")
    ∷ (codes "Binomial", codes "binomial")
    ∷ (codes "Floor", codes "integer-part")
    ∷ (codes "Ceiling", codes "integer-part")
    ∷ (codes "Round", codes "integer-part")
    ∷ (codes "Gamma", codes "gamma-function")
    ∷ (codes "LogGamma", codes "gamma-function")
    ∷ (codes "PolyGamma", codes "gamma-function")
    ∷ (codes "Beta", codes "gamma-function")
    ∷ (codes "Pochhammer", codes "gamma-function")
    ∷ (codes "Erf", codes "error-function")
    ∷ (codes "Erfc", codes "error-function")
    ∷ (codes "Erfi", codes "error-function")
    ∷ (codes "BesselJ", codes "bessel")
    ∷ (codes "BesselY", codes "bessel")
    ∷ (codes "BesselI", codes "bessel")
    ∷ (codes "BesselK", codes "bessel")
    ∷ (codes "HankelH1", codes "bessel")
    ∷ (codes "HankelH2", codes "bessel")
    ∷ (codes "AiryAi", codes "airy")
    ∷ (codes "AiryBi", codes "airy")
    ∷ (codes "StruveH", codes "struve")
    ∷ (codes "StruveL", codes "struve")
    ∷ (codes "EllipticF", codes "elliptic")
    ∷ (codes "EllipticE", codes "elliptic")
    ∷ (codes "EllipticK", codes "elliptic")
    ∷ (codes "EllipticPi", codes "elliptic")
    ∷ (codes "EllipticTheta", codes "elliptic")
    ∷ (codes "EllipticNomeQ", codes "elliptic")
    ∷ (codes "InverseEllipticNomeQ", codes "elliptic")
    ∷ (codes "JacobiSD", codes "elliptic")
    ∷ (codes "JacobiCN", codes "elliptic")
    ∷ (codes "JacobiSN", codes "elliptic")
    ∷ (codes "JacobiDN", codes "elliptic")
    ∷ (codes "WeierstrassP", codes "elliptic")
    ∷ (codes "Hypergeometric2F1", codes "hypergeometric")
    ∷ (codes "HypergeometricPFQ", codes "hypergeometric")
    ∷ (codes "Hypergeometric1F1", codes "hypergeometric")
    ∷ (codes "HypergeometricU", codes "hypergeometric")
    ∷ (codes "MeijerG", codes "meijer-g")
    ∷ (codes "PolyLog", codes "polylogarithm")
    ∷ (codes "LerchPhi", codes "polylogarithm")
    ∷ (codes "Zeta", codes "zeta")
    ∷ (codes "HurwitzZeta", codes "zeta")
    ∷ (codes "DirichletEta", codes "zeta")
    ∷ (codes "LegendreP", codes "orthogonal-polynomial")
    ∷ (codes "LegendreQ", codes "orthogonal-polynomial")
    ∷ (codes "HermiteH", codes "orthogonal-polynomial")
    ∷ (codes "LaguerreL", codes "orthogonal-polynomial")
    ∷ (codes "ChebyshevT", codes "orthogonal-polynomial")
    ∷ (codes "ChebyshevU", codes "orthogonal-polynomial")
    ∷ (codes "JacobiP", codes "orthogonal-polynomial")
    ∷ (codes "GegenbauerC", codes "orthogonal-polynomial")
    ∷ (codes "SinIntegral", codes "integral-function")
    ∷ (codes "CosIntegral", codes "integral-function")
    ∷ (codes "ExpIntegralEi", codes "integral-function")
    ∷ (codes "ExpIntegralE", codes "integral-function")
    ∷ (codes "LogIntegral", codes "integral-function")
    ∷ (codes "FresnelC", codes "integral-function")
    ∷ (codes "FresnelS", codes "integral-function")
    ∷ []

-- `tag, ok := opFacet[op]`
unfoldable pub op_facet : Text → Option Text
unfolding lookup
op_facet o = lookup o op_facet_table
